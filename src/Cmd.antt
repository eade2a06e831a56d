-- ===== src/Cmd.antt =====
-- cmd/main.go: the demo command, over what it uses of os, io/ioutil and fmt.
use go_cosmwasm.Base.{ℕ, Option, none, some, List, [], ◌∷◌, ◌++◌, get_elem?}
use go_cosmwasm.Base.Text.{text}
use go_cosmwasm.Go.{Go, Panic, pure, throw, ◌>>=◌, ◌>>◌, bounds_error, error_string, Bytes, Slice}
use go_cosmwasm.Types.Errors.{Error}
use go_cosmwasm.Api.World.{World, on_host}
use go_cosmwasm.Api.Library.{Library}
use go_cosmwasm.Api.Calls.{Loaded}
use go_cosmwasm.Wasmer.{Wasmer, new_wasmer, create, cleanup}

-- `os.Args`, `ioutil.ReadFile`, `os.MkdirAll` and the printing of fmt, with `%X` apart.
pub record Os (H : Type 0) : Type 0 where
  pub args : List Bytes
  pub read_file : Bytes → Go H (Loaded Slice)
  pub mkdir_all : Bytes → ℕ → Go H (Option Error)
  pub print : Bytes → Go H (Unit {0})
  pub hex : Slice → Bytes

-- The value of `panic(err)`: an error behind a pointer has a type without a name.
abbrev pub panic_of : Error → Panic
panic_of Error.out_of_gas_error = record { type_name = "OutOfGasError" }
panic_of e = record { type_name = "" }

-- `if err != nil { panic(err) }`
abbrev pub must : {H A : Type 0} → Loaded A → Go H A
must r = elim r.error [ none ↦ pure r.value | some e ↦ throw (panic_of e) ]

-- A line of output.
abbrev pub line : Bytes → Bytes
line t = t ++ 10 ∷ []

-- `os.Args[i]`
abbrev pub arg_at : {H : Type 0} → List Bytes → ℕ → Go H Bytes
arg_at args i = elim (get_elem? args i) [ none ↦ throw bounds_error | some a ↦ pure a ]

module _ {H : Type 0} (lib : Library H) where
  -- From `wasmer.Create(bz)` on; a nil pointer, which only comes with an error, has no field.
  unfoldable pub store_code :
      (Slice → Bytes)
      → (Bytes → Go (World H) (Unit {0}))
      → Slice
      → Option Wasmer
      → Go (World H) (Unit {0})
  store_code hex print bz none = throw error_string
  store_code hex print bz (some wasmer) = do
    created ← create lib wasmer bz
    id ← must created
    print (line (text "Got code id: " ++ hex id))
    cleanup lib wasmer
    print (line (text "finished"))

  -- `main`
  unfoldable pub main : Os H → Go (World H) (Unit {0})
  unfolding store_code
  main os = do
    file ← arg_at os.args 1
    on_host (os.print (line (text "Running " ++ file ++ text "...")))
    read ← on_host (os.read_file file)
    bz ← must read
    on_host (os.print (line (text "Loaded!")))
    on_host (os.mkdir_all (text "tmp") 493)
    opened ← new_wasmer lib (text "tmp") (text "staking") 0
    wasmer ← must opened
    store_code os.hex (λ t. on_host (os.print t)) bz wasmer

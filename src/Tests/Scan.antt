-- ===== src/Tests/Scan.antt =====
-- Steps of an iterator of the mock store.
use go_cosmwasm.Base.{◌≡◌, refl, true, none, some, [], ◌∷◌, arith}
use go_cosmwasm.Go.{ok, pure}
use go_cosmwasm.Ffi.Scan.{next}
use go_cosmwasm.Ffi.Scan.Entries.{step_of, stepped, next-stepped}
use go_cosmwasm.Ffi.Range.{Order, range}
use go_cosmwasm.Ffi.Range.Opens.{opening, ranged, range-ranged, handle_of, stored, unbounded}
use go_cosmwasm.Ffi.Range.Iterates.{range-next}
use go_cosmwasm.Ffi.Status.{done}
use go_cosmwasm.Api.World.{World}
use go_cosmwasm.Ffi.Storage.Refines.{metered}
use go_cosmwasm.Api.Host.{DbIterator}
use go_cosmwasm.Api.Iterator.{retrieve_iterator}
use go_cosmwasm.Tests.Mock.{Mock, mock_db, mock_meter, mock_world, consume_gas}

-- Every iterator stands on the entry [5], [6], and moving it costs 37000.
abbrev standing : DbIterator Mock
standing = record {
  valid = λ it. pure true;
  key = λ it. pure (some (5 ∷ []));
  value = λ it. pure (some (6 ∷ []));
  next = λ it. consume_gas 37000;
  close = λ it. pure tt;
}

next-stepped_example :
    next standing
      (record { state = record { db_counter = 1; iterator_index = 1 }; vtable = true })
      mock_meter
      mock_world
    ≡ stepped mock_world (step_of standing mock_meter 7 mock_world.host)
unfolding retrieve_iterator
next-stepped_example =
    next-stepped standing mock_meter (record { db_counter = 1; iterator_index = 1 }) 7 mock_world
      refl refl

range-ranged_example :
    range mock_db mock_meter (some (1 ∷ [])) none Order.descending mock_world
    ≡ ranged mock_db (some (1 ∷ [])) none mock_world (
        metered mock_meter
          (opening mock_db.store Order.descending (some (1 ∷ [])) none)
          mock_world.host)
range-ranged_example =
    range-ranged mock_db mock_meter (some (1 ∷ [])) none Order.descending mock_world tt
      (omega arith) (omega arith)

-- The mock's state once a reverse iterator is open.
abbrev opened_host : Mock
opened_host = record mock_world.host { consumed = 262000 }

range-next_example :
    let opened : World Mock =
      stored mock_db 2
        (unbounded (some (1 ∷ [])) none (record mock_world { host = opened_host })) in
    (range mock_db mock_meter (some (1 ∷ [])) none Order.descending mock_world
      ≡ (ok (done (handle_of mock_db mock_world), 261000), opened))
    × (next standing (handle_of mock_db mock_world) mock_meter opened
        ≡ stepped opened (step_of standing mock_meter 2 opened_host))
range-next_example =
    range-next standing mock_db mock_meter (some (1 ∷ [])) none Order.descending mock_world 2 261000
      opened_host tt (omega arith) (omega arith) refl (omega arith) refl

-- ===== src/Types/Msg.antt =====
-- types/msg.go and types/env.go: what a contract receives and what it answers. A `[]byte` and a
-- list are a slice that may be nil.
use go_cosmwasm.Base.{ℕ, Option, List}
use go_cosmwasm.Go.{Bytes, Slice}
use go_cosmwasm.Types.StdError.{StdError}
use go_cosmwasm.Types.Coins.{Coin, Coins}

pub record BlockInfo : Type 0 where
  pub height : ℕ
  pub time : ℕ
  pub chain_id : Bytes

pub record MessageInfo : Type 0 where
  pub sender : Bytes
  pub sent_funds : Coins

pub record ContractInfo : Type 0 where
  pub address : Bytes

pub record Env : Type 0 where
  pub block : BlockInfo
  pub message : MessageInfo
  pub contract : ContractInfo
  pub key : Bytes

pub record LogAttribute : Type 0 where
  pub key : Bytes
  pub value : Bytes

pub record SendMsg : Type 0 where
  pub from_address : Bytes
  pub to_address : Bytes
  pub amount : Coins

pub record BankMsg : Type 0 where
  pub send : Option SendMsg

pub record DelegateMsg : Type 0 where
  pub validator : Bytes
  pub amount : Coin

pub record UndelegateMsg : Type 0 where
  pub validator : Bytes
  pub amount : Coin

pub record RedelegateMsg : Type 0 where
  pub src_validator : Bytes
  pub dst_validator : Bytes
  pub amount : Coin

pub record WithdrawMsg : Type 0 where
  pub validator : Bytes
  pub recipient : Bytes

pub record StakingMsg : Type 0 where
  pub delegate : Option DelegateMsg
  pub undelegate : Option UndelegateMsg
  pub redelegate : Option RedelegateMsg
  pub withdraw : Option WithdrawMsg

pub record ExecuteMsg : Type 0 where
  pub contract_addr : Bytes
  pub callback_code_hash : Bytes
  pub msg : Slice
  pub send : Coins

pub record InstantiateMsg : Type 0 where
  pub code_id : ℕ
  pub callback_code_hash : Bytes
  pub msg : Slice
  pub label : Bytes
  pub send : Coins

pub record WasmMsg : Type 0 where
  pub execute : Option ExecuteMsg
  pub instantiate : Option InstantiateMsg

-- `custom` is raw JSON text.
pub record CosmosMsg : Type 0 where
  pub bank : Option BankMsg
  pub custom : Slice
  pub staking : Option StakingMsg
  pub wasm : Option WasmMsg

pub record HandleResponse : Type 0 where
  pub messages : Option (List CosmosMsg)
  pub data_field : Slice
  pub log : Option (List LogAttribute)

pub record InitResponse : Type 0 where
  pub messages : Option (List CosmosMsg)
  pub log : Option (List LogAttribute)

pub record MigrateResponse : Type 0 where
  pub messages : Option (List CosmosMsg)
  pub data_field : Slice
  pub log : Option (List LogAttribute)

pub record HandleResult : Type 0 where
  pub ok : Option HandleResponse
  pub err : Option StdError

pub record InitResult : Type 0 where
  pub ok : Option InitResponse
  pub err : Option StdError

pub record MigrateResult : Type 0 where
  pub ok : Option MigrateResponse
  pub err : Option StdError

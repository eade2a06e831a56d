-- ===== src/Types/Responses.antt =====
-- The answers of types/queries.go to the queries of the bank and staking modules.
use go_cosmwasm.Base.{Option, List}
use go_cosmwasm.Go.{Bytes}
use go_cosmwasm.Types.Queries.{Decoded}
use go_cosmwasm.Types.Coins.{Coin, Coins, marshal_json, unmarshal_json}

pub record BalanceResponse : Type 0 where
  pub amount : Coin

pub record AllBalancesResponse : Type 0 where
  pub amount : Coins

pub record Validator : Type 0 where
  pub address : Bytes
  pub commission : Bytes
  pub max_commission : Bytes
  pub max_change_rate : Bytes

-- `Validators`, a slice that may be nil.
abbrev pub Validators : Type 0
Validators = Option (List Validator)

pub record ValidatorsResponse : Type 0 where
  pub validators : Validators

pub record Delegation : Type 0 where
  pub delegator : Bytes
  pub validator : Bytes
  pub amount : Coin

-- `Delegations`, a slice that may be nil.
abbrev pub Delegations : Type 0
Delegations = Option (List Delegation)

pub record AllDelegationsResponse : Type 0 where
  pub delegations : Delegations

pub record FullDelegation : Type 0 where
  pub delegator : Bytes
  pub validator : Bytes
  pub amount : Coin
  pub accumulated_rewards : Coin
  pub can_redelegate : Coin

pub record DelegationResponse : Type 0 where
  pub delegation : Option FullDelegation

pub record BondedDenomResponse : Type 0 where
  pub denom : Bytes

module _ (marshal_list : List Validator → Decoded Bytes)
    (unmarshal_list : Bytes → Decoded (Option (List Validator))) where
  -- `Validators.MarshalJSON` and `Validators.UnmarshalJSON`
  unfoldable pub marshal_validators : Validators → Decoded Bytes
  unfolding marshal_json
  marshal_validators = marshal_json marshal_list unmarshal_list

  unfoldable pub unmarshal_validators : Validators → Bytes → Decoded Validators
  unfolding unmarshal_json
  unmarshal_validators = unmarshal_json marshal_list unmarshal_list

module _ (marshal_list : List Delegation → Decoded Bytes)
    (unmarshal_list : Bytes → Decoded (Option (List Delegation))) where
  -- `Delegations.MarshalJSON` and `Delegations.UnmarshalJSON`
  unfoldable pub marshal_delegations : Delegations → Decoded Bytes
  unfolding marshal_json
  marshal_delegations = marshal_json marshal_list unmarshal_list

  unfoldable pub unmarshal_delegations : Delegations → Bytes → Decoded Delegations
  unfolding unmarshal_json
  unmarshal_delegations = unmarshal_json marshal_list unmarshal_list

-- ===== src/Executor/SendError.antt =====
-- `parse_send_error` of utils.rs, on the characters of a text in small letters.
use oyster_monorepo.Base.{
  ℕ, String, Bool, true, false, ◌&&◌, ◌||◌, List, [], ◌∷◌, ◌==◌, if◌then◌else◌,
}
use oyster_monorepo.Guest.Reader.{codes}

pub data JobsTxnSendError : Type 0 where
  nonce_too_low nonce_too_high out_of_gas gas_too_high gas_price_low : JobsTxnSendError
  contract_execution network_connectivity other_retryable : JobsTxnSendError

abbrev pub starts_with : List ℕ → List ℕ → Bool
starts_with [] text = true
starts_with (c ∷ pattern) [] = false
starts_with (c ∷ pattern) (d ∷ text) = c == d && starts_with pattern text

-- `error.contains(pattern)`
abbrev pub contains : List ℕ → List ℕ → Bool
contains pattern [] = starts_with pattern []
contains pattern (c ∷ text) = starts_with pattern (c ∷ text) || contains pattern text

abbrev says : List ℕ → String → Bool
says error pattern = contains (codes pattern) error

unfoldable pub parse_send_error : List ℕ → JobsTxnSendError
parse_send_error error =
    if says error "nonce too low"
    then nonce_too_low
    else if says error "nonce too high" || says error "too many pending transactions"
    then nonce_too_high
    else if says error "out of gas"
    then out_of_gas
    else if says error "gas limit too high" || says error "transaction exceeds block gas limit"
    then gas_too_high
    else if says error "gas price too low" || says error "transaction underpriced"
    then gas_price_low
    else if says error "connection" || says error "network"
    then network_connectivity
    else if says error "reverted" || says error "failed"
    then contract_execution
    else other_retryable

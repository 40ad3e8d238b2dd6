-- ===== src/Wire/Limits.antt =====
-- wire/transaction_limits.py: the resource bounds of one transaction.
use discovery_net.Base.{ℕ, ◌*◌, Bool, ltb, length}
use discovery_net.Base.Text.{Bytes}

abbrev pub maximum_encoded_bytes : ℕ
maximum_encoded_bytes = 4 * 1024 * 1024

abbrev pub maximum_artifacts : ℕ
maximum_artifacts = 256

-- The tests under which `require_encoded_size` and `require_artifact_count` raise
-- `TransactionLimitError`
unfoldable pub exceeds_encoded_size : Bytes → Bool
exceeds_encoded_size transaction = ltb maximum_encoded_bytes (length transaction)

unfoldable pub exceeds_artifact_count : ℕ → Bool
exceeds_artifact_count artifact_count = ltb maximum_artifacts artifact_count

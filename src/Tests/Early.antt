-- ===== src/Tests/Early.antt =====
-- A transaction with a time that has no UTC form.
use discovery_net.Base.{◌≡◌, refl, some, [], ◌∷◌, arith}
use discovery_net.Base.Result.{err, overflow_error}
use discovery_net.Base.Text.{codes}
use discovery_net.Graph.Kinds.{lemma}
use discovery_net.Graph.Time.{Datetime, east}
use discovery_net.Wire.External.{External, ContributionPayload}
use discovery_net.Node.Handler.{check_tx, finalize_block, CometBftCallbackHandler}
use discovery_net.Node.Handler.Overflow
use discovery_net.Node.Handler.Overflow.{IsCreatedBeforeUtc}
use discovery_net.Tests.Samples.{toy, lemma_tx, lemma_envelope, lemma_signed_envelope, zeros}
use discovery_net.Tests.Runs.{node_code, new_node}

-- 0001-01-01T00:00:00+01:00
abbrev first_midnight : Datetime
first_midnight = record {
  year = 1;
  month = 1;
  day = 1;
  second = 0;
  microsecond = 0;
  offset = some (east 3600);
}

abbrev early_payload : ContributionPayload
early_payload = record {
  body = codes "b";
  created_at = first_midnight;
  kind = lemma;
  title = codes "t";
}

-- The same packages, but the payload is read with the early time
abbrev early_toy : External
early_toy = record toy { contribution_json = λ bytes. some early_payload }

lemma_tx-IsCreatedBeforeUtc : IsCreatedBeforeUtc ⦃ext = early_toy⦄ lemma_tx
unfolding node_code
lemma_tx-IsCreatedBeforeUtc = record {
  model = record { envelopes = lemma_envelope ∷ []; signature = zeros 128 };
  first = lemma_envelope;
  others = [];
  payload = early_payload;
  signed = lemma_signed_envelope;
  ahead = 3600;
  fits = refl;
  parsed = refl;
  valid = refl;
  envelopes = refl;
  chain_id = refl;
  payload_type = refl;
  signed_type = refl;
  bytes = refl;
  key = refl;
  signature = refl;
  made = refl;
  read = refl;
  titled = refl;
  early = record { offset = refl; second = omega arith; year = refl; month = refl; day = refl };
}

abbrev early_node : CometBftCallbackHandler
early_node = new_node

check_tx-finalize_block-overflow_example :
    (check_tx ⦃ext = early_toy⦄ early_node lemma_tx ≡ err overflow_error)
    × (finalize_block ⦃ext = early_toy⦄ early_node 1 (lemma_tx ∷ []) ≡ err overflow_error)
check_tx-finalize_block-overflow_example =
    Overflow.check_tx-finalize_block-overflow ⦃ext = early_toy⦄ early_node lemma_tx []
      lemma_tx-IsCreatedBeforeUtc refl (omega arith)

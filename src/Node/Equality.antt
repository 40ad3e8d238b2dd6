-- ===== src/Node/Equality.antt =====
-- The structural equality that `@dataclass` gives to ledger entries.
use discovery_net.Base.{
  Bool, true, ◌&&◌, ◌≡◌, ◌↔◌, Eq, ◌==◌, ==_iff, eqb, eq_of_discrete, list_eq, nat_eq, arith,
}
use discovery_net.Base.Text.{text_eq}
use discovery_net.Wire.Envelope.{PayloadType, SignedEnvelope}
use discovery_net.Node.Ledger.{ArtifactLedgerEntry}

unfoldable pub PayloadType-discrete : Discrete PayloadType
PayloadType-discrete = hlevel

instance abbrev pub payload_type_eq : Eq PayloadType
payload_type_eq = eq_of_discrete PayloadType-discrete

unfoldable pub envelope_beq : SignedEnvelope → SignedEnvelope → Bool
envelope_beq a b =
    (a.chain_id == b.chain_id)
    && (a.payload_type == b.payload_type)
    && (a.payload == b.payload)
    && (a.signer_public_key == b.signer_public_key)
    && (a.signature == b.signature)

pub envelope_beq_iff : (a b : SignedEnvelope) → (envelope_beq a b ≡ true) ↔ (a ≡ b)
unfolding envelope_beq
envelope_beq_iff a b = ground (
  arith,
  ==_iff a.chain_id b.chain_id,
  ==_iff a.payload_type b.payload_type,
  ==_iff a.payload b.payload,
  ==_iff a.signer_public_key b.signer_public_key,
  ==_iff a.signature b.signature,
)

instance abbrev pub envelope_eq : Eq SignedEnvelope
envelope_eq = record { same = envelope_beq; same_iff = envelope_beq_iff }

unfoldable pub entry_beq : ArtifactLedgerEntry → ArtifactLedgerEntry → Bool
entry_beq a b =
    (a.transaction.envelopes == b.transaction.envelopes)
    && (a.transaction.signature == b.transaction.signature)
    && eqb a.height b.height
    && eqb a.transaction_index b.transaction_index

pub entry_beq_iff : (a b : ArtifactLedgerEntry) → (entry_beq a b ≡ true) ↔ (a ≡ b)
unfolding entry_beq
entry_beq_iff a b = ground (
  arith,
  ==_iff a.transaction.envelopes b.transaction.envelopes,
  ==_iff a.transaction.signature b.transaction.signature,
)

instance abbrev pub entry_eq : Eq ArtifactLedgerEntry
entry_eq = record { same = entry_beq; same_iff = entry_beq_iff }

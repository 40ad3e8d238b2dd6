-- ===== src/Inspector/Feed.antt =====
-- inspector/service.py: the feed of committed transactions, in pages, latest first.
pub mod Positions
pub mod Paging
use discovery_net.Base.{
  ℕ, Bool, true, false, not, ◌&&◌, ◌||◌, ◌≡◌, ◌↔◌, refl, Option, none, some, List, [], ◌∷◌, ◌++◌,
  Eq, ◌==◌, eqb, ltb, leb, keep_if, take, length, get_elem?, arith, if◌then◌else◌,
}
use discovery_net.Base.Dict.{Dict, keys, lookup, insert}
use discovery_net.Base.Result.{
  Result, ok, err, type_error, index_error, validation_error, key_error, require, map_m, ◌>>=◌,
  ◌>>◌,
}
use discovery_net.Base.Text.{Str, hex, codes, decimal}
use discovery_net.Graph.Kinds.{ContributionKind, RelationKind}
use discovery_net.Graph.Time.{Datetime, is_aware}
use discovery_net.Graph.Models.{ArtifactRef, Artifact, contribution, relation, is_contribution}
use discovery_net.Wire.Envelope.{SignedEnvelope}
use discovery_net.Index.{IndexedArtifact, GraphState, artifacts}

-- A height and the index of a transaction in its block
abbrev pub Position : Type 0
Position = ℕ × ℕ

unfoldable pub position_beq : Position → Position → Bool
position_beq (h, i) (k, j) = eqb h k && eqb i j

pub position_beq_iff : (p q : Position) → (position_beq p q ≡ true) ↔ (p ≡ q)
unfolding position_beq
position_beq_iff (h, i) (k, j) = ground arith

instance abbrev pub position_eq : Eq Position
position_eq = record { same = position_beq; same_iff = position_beq_iff }

-- The order of the tuples
unfoldable pub position_lt : Position → Position → Bool
position_lt (h, i) (k, j) = ltb h k || (eqb h k && ltb i j)

abbrev pub Groups : Type 0
Groups = Dict Position (List IndexedArtifact)

abbrev pub position_of : IndexedArtifact → Position
position_of x = (x.ledger_entry.height, x.ledger_entry.transaction_index)

abbrev pub group_at : Option (List IndexedArtifact) → List IndexedArtifact
group_at none = []
group_at (some xs) = xs

-- `grouped.setdefault(key, []).append(indexed)` for each artifact
unfoldable pub group : Groups → List IndexedArtifact → Groups
group d [] = d
group d (x ∷ xs) =
    group (insert (position_of x) (group_at (lookup (position_of x) d) ++ x ∷ []) d) xs

-- `sorted(grouped, reverse=True)`
unfoldable pub insert_position : Position → List Position → List Position
insert_position p [] = p ∷ []
insert_position p (q ∷ ps) = if position_lt q p then p ∷ q ∷ ps else q ∷ insert_position p ps

unfoldable pub sort_positions : List Position → List Position
sort_positions [] = []
sort_positions (p ∷ ps) = insert_position p (sort_positions ps)

-- `before is None or position < before`
abbrev pub is_before : Option Position → Position → Bool
is_before none p = true
is_before (some before) p = position_lt p before

-- The positions of `_feed_page` that are left to show
unfoldable pub positions_before : GraphState → Option Position → List Position
positions_before index before =
    keep_if (is_before before) (sort_positions (keys (group [] (artifacts index))))

unfoldable pub last_position : List Position → Option Position
last_position [] = none
last_position (p ∷ []) = some p
last_position (p ∷ q ∷ ps) = last_position (q ∷ ps)

-- `f"{height}:{index}"`
unfoldable pub spelled : Position → Str
spelled (height, index) = decimal height ++ (codes ":" ++ decimal index)

abbrev pub map_position : (Position → Str) → Option Position → Option Str
map_position f none = none
map_position f (some p) = some (f p)

-- The position that `next_before` spells, after a page of `limit` of the positions
unfoldable pub next_position : ℕ → List Position → Option Position
next_position limit positions =
    if ltb limit (length positions) then last_position (take limit positions) else none

pub record InspectorContribution : Type 0 where
  pub artifact_ref : ArtifactRef
  pub kind : ContributionKind
  pub title : Str
  pub body : Str
  pub created_at : Datetime
  pub signer_public_key : Str
  pub signature : Str
  pub height : ℕ
  pub transaction_index : ℕ
  pub artifact_index : ℕ

pub record InspectorRelation : Type 0 where
  pub artifact_ref : ArtifactRef
  pub kind : RelationKind
  pub from_contribution : ArtifactRef
  pub to_contribution : ArtifactRef
  pub created_at : Datetime
  pub signer_public_key : Str
  pub signature : Str
  pub height : ℕ
  pub transaction_index : ℕ
  pub artifact_index : ℕ

pub record InspectorFeedTransaction : Type 0 where
  pub height : ℕ
  pub transaction_index : ℕ
  pub contributions : List InspectorContribution
  pub relations : List InspectorRelation

pub record InspectorFeedPage : Type 0 where
  pub indexed_height : ℕ
  pub transactions : List InspectorFeedTransaction
  pub next_before : Option Str

-- `IndexedArtifact.envelope`
abbrev pub envelope_or_raise : Option SignedEnvelope → Result SignedEnvelope
envelope_or_raise none = err index_error
envelope_or_raise (some e) = ok e

unfoldable pub envelope : IndexedArtifact → Result SignedEnvelope
envelope x = envelope_or_raise (get_elem? x.ledger_entry.transaction.envelopes x.artifact_index)

-- The fields that the view models check: a positive height and an aware time
abbrev pub require_view : ℕ → Datetime → Result (Unit {0})
require_view height created_at = require (leb 1 height && is_aware created_at) validation_error

unfoldable pub contribution_view : IndexedArtifact → Result InspectorContribution
contribution_view x = elim x.artifact [
  | relation r ↦ err type_error
  | contribution c ↦ do
    e ← envelope x
    require_view x.ledger_entry.height c.created_at
    ok (record {
      artifact_ref = x.artifact_ref;
      kind = c.kind;
      title = c.title;
      body = c.body;
      created_at = c.created_at;
      signer_public_key = hex e.signer_public_key;
      signature = hex e.signature;
      height = x.ledger_entry.height;
      transaction_index = x.ledger_entry.transaction_index;
      artifact_index = x.artifact_index;
    })
]

unfoldable pub relation_view : IndexedArtifact → Result InspectorRelation
relation_view x = elim x.artifact [
  | contribution c ↦ err type_error
  | relation r ↦ do
    e ← envelope x
    require_view x.ledger_entry.height r.created_at
    ok (record {
      artifact_ref = x.artifact_ref;
      kind = r.kind;
      from_contribution = r.from_contribution;
      to_contribution = r.to_contribution;
      created_at = r.created_at;
      signer_public_key = hex e.signer_public_key;
      signature = hex e.signature;
      height = x.ledger_entry.height;
      transaction_index = x.ledger_entry.transaction_index;
      artifact_index = x.artifact_index;
    })
]

unfoldable pub feed_transaction : Position → List IndexedArtifact → Result InspectorFeedTransaction
feed_transaction (height, index) xs = do
  contributions ← map_m contribution_view (keep_if (λ x. is_contribution x.artifact) xs)
  relations ← map_m relation_view (keep_if (λ x. not (is_contribution x.artifact)) xs)
  require (leb 1 height) validation_error
  ok (record {
    height = height;
    transaction_index = index;
    contributions = contributions;
    relations = relations;
  })

-- `_feed_transaction(position, tuple(grouped[position]))`
abbrev pub feed_group : Position → Option (List IndexedArtifact) → Result InspectorFeedTransaction
feed_group p none = err key_error
feed_group p (some xs) = feed_transaction p xs

-- `_feed_page`
unfoldable pub feed_page : GraphState → Option Position → ℕ → Result InspectorFeedPage
feed_page index before limit = do
  let positions = positions_before index before
  transactions ←
      map_m (λ p. feed_group p (lookup p (group [] (artifacts index)))) (take limit positions)
  ok (record {
    indexed_height = index.height;
    transactions = transactions;
    next_before = map_position spelled (next_position limit positions);
  })

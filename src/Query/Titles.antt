-- ===== src/Query/Titles.antt =====
-- query/knowledge_graph_queries.py: the search by title.
use discovery_net.Base.{
  Bool, false, ◌&&◌, ◌≡◌, refl, ap, ◌∙◌, Option, none, some, keep_if-ext, keep_if-and,
}
use discovery_net.Base.Result.{ok}
use discovery_net.Base.Text.{Str, contains_text}
use discovery_net.Graph.Kinds.{ContributionKind, contribution_kind_eq}
use discovery_net.Graph.Models.{Artifact, contribution, relation, is_contribution}
use discovery_net.Wire.External.{External}
use discovery_net.Index.{GraphState, artifacts, contributions, matches}
use discovery_net.Index.Sound.{IsReached}
use discovery_net.Index.Retrieval.{scan, retrieval-scan, is_contribution_of}
use discovery_net.Query.{has_title, contributions_containing_title}

-- A contribution of the kind, if one is given, whose title has the text in it, up to case
abbrev pub is_titled : (Str → Str) → Str → Option ContributionKind → Artifact → Bool
is_titled casefold text kind (contribution c) =
    matches kind c.kind && contains_text (casefold text) (casefold c.title)
is_titled casefold text kind (relation r) = false

is_titled_any :
    (casefold : Str → Str) (text : Str) (a : Artifact)
    → (is_contribution a && has_title casefold (casefold text) a) ≡ is_titled casefold text none a
unfolding has_title
is_titled_any casefold text (contribution c) = refl
is_titled_any casefold text (relation r) = refl

is_titled_kind :
    (casefold : Str → Str) (text : Str) (kind : ContributionKind) (a : Artifact)
    → (is_contribution_of kind a && has_title casefold (casefold text) a)
      ≡ is_titled casefold text (some kind) a
unfolding has_title
is_titled_kind casefold text kind (contribution c) = refl
is_titled_kind casefold text kind (relation r) = refl

module _ ⦃ext : External⦄ where
  -- In every index that the operations reach, the search by title returns the contributions, of
  -- the kind if one is given, whose case-folded title has the case-folded text in it, in the order
  -- of the ledger, and raises nothing.
  pub contributions_containing_title-scan :
      (casefold : Str → Str) (index : GraphState) (text : Str) (kind : Option ContributionKind)
      → IsReached index
      → contributions_containing_title casefold index text kind
        ≡ ok (scan (is_titled casefold text kind) index)
  unfolding contributions_containing_title
  contributions_containing_title-scan casefold index text none reached =
      unfold contributions artifacts in
      ap ok (
        keep_if-and (λ x. has_title casefold (casefold text) x.artifact)
          (λ x. is_contribution x.artifact) (artifacts index)
        ∙ keep_if-ext
            (λ x. is_contribution x.artifact && has_title casefold (casefold text) x.artifact)
            (λ x. is_titled casefold text none x.artifact) (artifacts index)
            (λ x. is_titled_any casefold text x.artifact))
  contributions_containing_title-scan casefold index text (some kind) reached =
      rw ((retrieval-scan index reached).0 kind) (
        ap ok (
          keep_if-and (λ x. has_title casefold (casefold text) x.artifact)
            (λ x. is_contribution_of kind x.artifact) (artifacts index)
          ∙ keep_if-ext
              (λ x.
                is_contribution_of kind x.artifact && has_title casefold (casefold text) x.artifact)
              (λ x. is_titled casefold text (some kind) x.artifact) (artifacts index)
              (λ x. is_titled_kind casefold text kind x.artifact)))

-- ===== src/Graph/Models.antt =====
-- knowledge_graph/models.py: contributions and relations, and what their constructors reject.
use discovery_net.Base.{Bool, true, false, not, ◌==◌}
use discovery_net.Base.Result.{Result, ok, value_error, require, ◌>>◌}
use discovery_net.Base.Text.{Str, text_eq, is_blank}
use discovery_net.Graph.Kinds.{ContributionKind, RelationKind}
use discovery_net.Graph.Time.{Datetime, is_aware}

-- knowledge_graph/identifiers.py
abbrev pub ArtifactRef : Type 0
ArtifactRef = Str

pub record Contribution : Type 0 where
  pub kind : ContributionKind
  pub title : Str
  pub body : Str
  pub created_at : Datetime

pub record ContributionRelation : Type 0 where
  pub from_contribution : ArtifactRef
  pub to_contribution : ArtifactRef
  pub kind : RelationKind
  pub created_at : Datetime

pub data Artifact : Type 0 where
  contribution : Contribution → Artifact
  relation : ContributionRelation → Artifact

unfoldable pub require_non_blank : Str → Result (Unit {0})
require_non_blank value = require (not (is_blank value)) value_error

unfoldable pub require_aware : Datetime → Result (Unit {0})
require_aware value = require (is_aware value) value_error

-- `Contribution(...)`: the record, if `__post_init__` raises nothing
unfoldable pub new_contribution : Contribution → Result Contribution
unfolding require_non_blank require_aware
new_contribution c = do require_non_blank c.title; require_aware c.created_at; ok c

-- `ContributionRelation(...)`
unfoldable pub new_relation : ContributionRelation → Result ContributionRelation
unfolding require_non_blank require_aware
new_relation r = do
  require_non_blank r.from_contribution
  require_non_blank r.to_contribution
  require_aware r.created_at
  require (not (r.from_contribution == r.to_contribution)) value_error
  ok r

-- `isinstance(artifact, Contribution)`
abbrev pub is_contribution : Artifact → Bool
is_contribution (contribution c) = true
is_contribution (relation r) = false

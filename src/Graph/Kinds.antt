-- ===== src/Graph/Kinds.antt =====
-- knowledge_graph/enums.py: the kinds of contributions and of relations, with their values.
use discovery_net.Base.{Eq, eq_of_discrete}
use discovery_net.Base.Text.{Str, codes}

pub data ContributionKind : Type 0 where
  mathematical_area axiom_statement definition problem_statement conjecture question finding lemma
        theorem corollary proof_attempt counterexample objection reproduction formalization summary
        discussion review_assignment review retraction erratum :
      ContributionKind

pub data RelationKind : Type 0 where
  replies_to subarea_of about has_application_in duplicate_of variant_of supports contradicts
        depends_on refines generalizes specializes cites reproduces formalizes verifies proves
        refutes supersedes retracts corrects endorses :
      RelationKind

-- `ContributionKind.value`
unfoldable pub contribution_kind_value : ContributionKind → Str
contribution_kind_value mathematical_area = codes "mathematical_area"
contribution_kind_value axiom_statement = codes "axiom"
contribution_kind_value definition = codes "definition"
contribution_kind_value problem_statement = codes "problem_statement"
contribution_kind_value conjecture = codes "conjecture"
contribution_kind_value question = codes "question"
contribution_kind_value finding = codes "finding"
contribution_kind_value lemma = codes "lemma"
contribution_kind_value theorem = codes "theorem"
contribution_kind_value corollary = codes "corollary"
contribution_kind_value proof_attempt = codes "proof_attempt"
contribution_kind_value counterexample = codes "counterexample"
contribution_kind_value objection = codes "objection"
contribution_kind_value reproduction = codes "reproduction"
contribution_kind_value formalization = codes "formalization"
contribution_kind_value summary = codes "summary"
contribution_kind_value discussion = codes "discussion"
contribution_kind_value review_assignment = codes "review_assignment"
contribution_kind_value review = codes "review"
contribution_kind_value retraction = codes "retraction"
contribution_kind_value erratum = codes "erratum"

-- `RelationKind.value`
unfoldable pub relation_kind_value : RelationKind → Str
relation_kind_value replies_to = codes "replies_to"
relation_kind_value subarea_of = codes "subarea_of"
relation_kind_value about = codes "about"
relation_kind_value has_application_in = codes "has_application_in"
relation_kind_value duplicate_of = codes "duplicate_of"
relation_kind_value variant_of = codes "variant_of"
relation_kind_value supports = codes "supports"
relation_kind_value contradicts = codes "contradicts"
relation_kind_value depends_on = codes "depends_on"
relation_kind_value refines = codes "refines"
relation_kind_value generalizes = codes "generalizes"
relation_kind_value specializes = codes "specializes"
relation_kind_value cites = codes "cites"
relation_kind_value reproduces = codes "reproduces"
relation_kind_value formalizes = codes "formalizes"
relation_kind_value verifies = codes "verifies"
relation_kind_value proves = codes "proves"
relation_kind_value refutes = codes "refutes"
relation_kind_value supersedes = codes "supersedes"
relation_kind_value retracts = codes "retracts"
relation_kind_value corrects = codes "corrects"
relation_kind_value endorses = codes "endorses"

unfoldable pub ContributionKind-discrete : Discrete ContributionKind
ContributionKind-discrete = hlevel

unfoldable pub RelationKind-discrete : Discrete RelationKind
RelationKind-discrete = hlevel

instance abbrev pub contribution_kind_eq : Eq ContributionKind
contribution_kind_eq = eq_of_discrete ContributionKind-discrete

instance abbrev pub relation_kind_eq : Eq RelationKind
relation_kind_eq = eq_of_discrete RelationKind-discrete

-- ===== src/Team/Timeline/Roles.antt =====
-- research_team/dashboard.py: the roles of agents, from the files of their prompts.
use discovery_net.Base.{none, some, List, [], ◌∷◌, if◌then◌else◌}
use discovery_net.Base.Dict.{Dict, lookup, insert}
use discovery_net.Base.Parse.{cut}
use discovery_net.Base.Text.{Str, text_eq, codes, strip, is_blank, is_empty}
use discovery_net.Team.Timeline.{set_default, text_of}

-- A prompt by the name of its file and its lines
pub record PromptFile : Type 0 where
  pub name : Str
  pub lines : List Str

-- `_prompt_metadata`: it ends at a blank line, and at a line without a colon.
unfoldable pub read_entries : Dict Str Str → List Str → Dict Str Str
unfolding cut strip
read_entries metadata [] = metadata
read_entries metadata (line ∷ lines) = if is_blank line then metadata else elim (cut b':' line) [
  | none ↦ metadata
  | some (key, value) ↦ read_entries (insert (strip key) (strip value) metadata) lines
]

-- `path.name.split(".", 1)[0]`
abbrev pub agent_name : Str → Str
unfolding cut
agent_name name = elim (cut b'.' name) [ none ↦ name | some (before, _) ↦ before ]

abbrev pub add_role : Str → Str → Dict Str Str → Dict Str Str
add_role name role roles = if is_empty role then roles else set_default name role roles

-- `_agent_roles`, over the prompts of the three folders in their order
unfoldable pub agent_roles : Dict Str Str → List PromptFile → Dict Str Str
unfolding read_entries
agent_roles roles [] = roles
agent_roles roles (file ∷ files) =
    agent_roles
      (add_role (agent_name file.name)
        (text_of (lookup (codes "role") (read_entries [] file.lines))) roles)
      files

-- ===== src/Runtime/Config/Tables.antt =====
-- node/runtime/_cometbft_config.py: what setting a table leaves.
use discovery_net.Base.{
  true, false, ◌≡◌, refl, sym, ap, ◌∙◌, Option, some, [], ◌∷◌, ◌==◌, ==-refl, list_beq_iff,
  contains, distinct, All, arith, if◌then◌else◌,
}
use discovery_net.Base.Parse.{pos, negsuc}
use discovery_net.Base.Dict.{Dict, keys, lookup, insert, has_key, lookup-insert}
use discovery_net.Base.Result.{ok, after, ok-injective, ◌>>=◌}
use discovery_net.Base.Text.{Str, text_eq, codes}
use discovery_net.Runtime.External.{Toml, TomlDocument, string, boolean, strings, number, another}
use discovery_net.Runtime.Config.{
  toml_beq, set_values, require_values, table_of, set_table, require_table,
}

toml_beq_refl : (v : Toml) → toml_beq v v ≡ true
toml_beq_refl (string s) = ==-refl s
toml_beq_refl (boolean true) = refl
toml_beq_refl (boolean false) = refl
toml_beq_refl (number (pos n)) = ground arith
toml_beq_refl (number (negsuc n)) = ground arith
toml_beq_refl (strings xs) = (list_beq_iff xs xs).1 refl
toml_beq_refl (another s) = ==-refl s

-- The table has these values.
abbrev pub Holds : Dict Str Toml → Dict Str Toml → Type 0
Holds table values = All (λ entry. lookup entry.0 table ≡ some entry.1) values

pub require_values-Holds :
    (table values : Dict Str Toml) → Holds table values → require_values table values ≡ ok tt
unfolding require_values
require_values-Holds table [] h = refl
require_values-Holds table ((key, value) ∷ values) h =
    rw (h.0, toml_beq_refl value) (require_values-Holds table values h.1)

pub lookup-set_values :
    (key : Str) (values table : Dict Str Toml)
    → has_key key values ≡ false
    → lookup key (set_values values table) ≡ lookup key table
unfolding set_values
lookup-set_values key [] table h = refl
lookup-set_values key ((k, v) ∷ values) table h =
    let other : (k == key) ≡ false = ground arith in
    lookup-set_values key values (insert k v table) (ground arith)
    ∙ lookup-insert k key v table
    ∙ ap (λ b. if b then some v else lookup key table) other

pub set_values-Holds :
    (values table : Dict Str Toml)
    → distinct (keys values) ≡ true
    → Holds (set_values values table) values
unfolding set_values
set_values-Holds [] table h = tt
set_values-Holds ((k, v) ∷ values) table h = (
  lookup-set_values k values (insert k v table) (ground arith)
      ∙ lookup-insert k k v table
      ∙ ap (λ b. if b then some v else lookup k table) (==-refl k),
  set_values-Holds values (insert k v table) (ground arith),
)

table_of-eq-some :
    (name : Str) (document : TomlDocument) (table : Dict Str Toml)
    → table_of name document ≡ ok table
    → lookup name document.tables ≡ some table
unfolding table_of
table_of-eq-some name document table h = ground arith

-- What setting a table leaves
pub record IsPlaced (name : Str) (values : Dict Str Toml) (before result : TomlDocument)
    : Type 0 where
  pub base : result.base ≡ before.base
  pub old : Dict Str Toml
  pub tables : result.tables ≡ insert name (set_values values old) before.tables

pub set_table-IsPlaced :
    (name : Str) (values : Dict Str Toml) (before result : TomlDocument)
    → set_table name values before ≡ ok result
    → IsPlaced name values before result
unfolding set_table
set_table-IsPlaced name values before result h = after (table_of name before) h λ table _ last.
    record {
      base = ap (λ d. d.base) (sym (ok-injective last));
      old = table;
      tables = ap (λ d. d.tables) (sym (ok-injective last));
    }

pub require_table-Holds :
    (name : Str) (values table : Dict Str Toml) (document : TomlDocument)
    → lookup name document.tables ≡ some table
    → Holds table values
    → require_table name values document ≡ ok tt
unfolding require_table table_of
require_table-Holds name values table document found held =
    let read : table_of name document ≡ ok table = ground arith in
    ap (λ r. r >>= λ table. require_values table values) read
    ∙ require_values-Holds table values held

-- The three tables of the sections, set one after the other
abbrev pub three : (r p c : Dict Str Toml) → Dict Str (Dict Str Toml) → Dict Str (Dict Str Toml)
three r p c tables =
    insert (codes "consensus") c (insert (codes "p2p") p (insert (codes "rpc") r tables))

pub lookup-three :
    (key : Str) (r p c : Dict Str Toml) (tables : Dict Str (Dict Str Toml))
    → lookup key (three r p c tables) ≡ (
        if codes "consensus" == key
        then some c
        else if codes "p2p" == key
        then some p
        else if codes "rpc" == key
        then some r
        else lookup key tables)
lookup-three key r p c tables =
    lookup-insert (codes "consensus") key c (insert (codes "p2p") p (insert (codes "rpc") r tables))
    ∙ ap (λ o. if codes "consensus" == key then some c else o)
        (lookup-insert (codes "p2p") key p (insert (codes "rpc") r tables)
          ∙ ap (λ o. if codes "p2p" == key then some p else o)
              (lookup-insert (codes "rpc") key r tables))

pub other_key :
    (x y key : Str) (a b : Option (Dict Str Toml))
    → contains key (x ∷ y ∷ []) ≡ false
    → (if x == key then a else if y == key then a else b) ≡ b
other_key x y key a b h = ground arith

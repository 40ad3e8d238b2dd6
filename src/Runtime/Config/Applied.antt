-- ===== src/Runtime/Config/Applied.antt =====
-- node/runtime/_cometbft_config.py: applying the settings ends with a configuration that has them.
use discovery_net.Base.{
  false, none, map, ◌++◌, All-map, ◌≡◌, ◌⊎◌, refl, sym, ap, ◌∙◌, subst, Option, some, [], ◌∷◌,
  contains, All, arith, inl, inr,
}
use discovery_net.Base.Parse.{join}
use discovery_net.Base.Dict.{Dict, lookup, insert, has_key}
use discovery_net.Base.Result.{Result, ok, err, Error, Result-cases, after, ◌>>=◌, ◌>>◌}
use discovery_net.Base.Text.{Str, Bytes, text_eq, codes}
use discovery_net.Runtime.External.{Packages, Toml, TomlDocument, string, boolean, strings}
use discovery_net.Runtime.Settings.{NodeLaunchSettings}
use discovery_net.Runtime.Config.{
  base_values, rpc_values, p2p_values, consensus_values, set_values, set_table, require_table,
  require_settings, apply_settings, verify, rendered, written, apply_and_verify, read_toml, parsed,
  base_settings, rpc_settings, p2p_settings, consensus_settings, external_address,
}
use discovery_net.Runtime.Endpoint.{Endpoint, str_endpoint, tcp_url, str_peer}
use discovery_net.Runtime.Config.Tables.{
  Holds, require_values-Holds, lookup-set_values, set_values-Holds, set_table-IsPlaced,
  require_table-Holds, three, lookup-three,
}

abbrev pub advertised : Option Endpoint → Str
advertised none = []
advertised (some e) = str_endpoint e

-- What the node is to be launched with: the plain keys of the document, and those of its tables
abbrev pub plain_settings : NodeLaunchSettings → Dict Str Toml
plain_settings s =
    (codes "moniker", string s.moniker)
    ∷ (codes "proxy_app", string (str_endpoint s.abci_endpoint))
    ∷ (codes "abci", string (codes "grpc"))
    ∷ (codes "log_level", string s.log_level)
    ∷ []

abbrev pub rpc_table : NodeLaunchSettings → Dict Str Toml
rpc_table s =
    (codes "laddr", string (codes "tcp://" ++ str_endpoint s.rpc_listen_endpoint))
    ∷ (codes "unsafe", boolean false)
    ∷ (codes "cors_allowed_origins", strings [])
    ∷ (codes "grpc_laddr", string [])
    ∷ (codes "pprof_laddr", string [])
    ∷ []

abbrev pub p2p_table : NodeLaunchSettings → Dict Str Toml
p2p_table s =
    (codes "laddr", string (codes "tcp://" ++ str_endpoint s.p2p_listen_endpoint))
    ∷ (codes "external_address", string (advertised s.p2p_advertised_endpoint))
    ∷ (codes "persistent_peers", string (join (codes ",") (map str_peer s.persistent_peers)))
    ∷ (codes "pex", boolean s.peer_exchange)
    ∷ (codes "addr_book_strict", boolean s.peer_admission.address_book_strict)
    ∷ (codes "allow_duplicate_ip", boolean s.peer_admission.allow_duplicate_ip)
    ∷ []

abbrev pub consensus_table : NodeLaunchSettings → Dict Str Toml
consensus_table s = (codes "create_empty_blocks", boolean s.create_empty_blocks) ∷ []

abbrev pub value_in : Str → Option (Dict Str Toml) → Option Toml
value_in key none = none
value_in key (some table) = lookup key table

abbrev pub HasTable : Str → Dict Str Toml → TomlDocument → Type 0
HasTable name values document =
    All (λ entry. value_in entry.0 (lookup name document.tables) ≡ some entry.1) values

HasTable-of :
    (name : Str) (values table : Dict Str Toml) (document : TomlDocument)
    → lookup name document.tables ≡ some table
    → Holds table values
    → HasTable name values document
HasTable-of name values table document found held =
    All-map values (λ entry h. ap (value_in entry.0) found ∙ h) held

-- The document has each setting, and passes the test of the code; every other plain key and every
-- other table is as before.
pub record IsConfigured (s : NodeLaunchSettings) (before result : TomlDocument) : Type 0 where
  pub plain : Holds result.base (plain_settings s)
  pub rpc : HasTable (codes "rpc") (rpc_table s) result
  pub p2p : HasTable (codes "p2p") (p2p_table s) result
  pub consensus : HasTable (codes "consensus") (consensus_table s) result
  pub required : require_settings s result ≡ ok tt
  pub base :
      (key : Str)
      → has_key key (plain_settings s) ≡ false
      → lookup key result.base ≡ lookup key before.base
  pub tables :
      (name : Str)
      → contains name (codes "rpc" ∷ codes "p2p" ∷ codes "consensus" ∷ []) ≡ false
      → lookup name result.tables ≡ lookup name before.tables

module _ (s : NodeLaunchSettings) where
  apply_settings-IsConfigured :
      (before result : TomlDocument)
      → apply_settings s before ≡ ok result
      → IsConfigured s before result
  unfolding apply_settings require_settings base_values rpc_values p2p_values consensus_values
      base_settings rpc_settings p2p_settings consensus_settings external_address tcp_url
  apply_settings-IsConfigured before result h =
      let based = record before { base = set_values (base_settings s) before.base } in
      after (set_table (codes "rpc") (rpc_settings s) based) h λ one made_one h1.
        after (set_table (codes "p2p") (p2p_settings s) one) h1 λ two made_two made.
          let first = set_table-IsPlaced (codes "rpc") (rpc_settings s) based one made_one in
          let second = set_table-IsPlaced (codes "p2p") (p2p_settings s) one two made_two in
          let third =
            set_table-IsPlaced (codes "consensus") (consensus_settings s) two result made in
          let base : result.base ≡ set_values (base_settings s) before.base =
            third.base ∙ second.base ∙ first.base in
          let r = set_values (rpc_settings s) first.old in
          let p = set_values (p2p_settings s) second.old in
          let c = set_values (consensus_settings s) third.old in
          let tables : result.tables ≡ three r p c before.tables =
            third.tables
            ∙ ap (insert (codes "consensus") c)
                (second.tables ∙ ap (insert (codes "p2p") p) first.tables) in
          let found : (key : Str)
              → lookup key result.tables ≡ lookup key (three r p c before.tables) =
            λ key. ap (lookup key) tables in
          let has_base : Holds result.base (base_settings s) =
            subst (λ b. Holds b (base_settings s)) (sym base)
              (set_values-Holds (base_settings s) before.base refl) in
          let rpc_found = found (codes "rpc") ∙ lookup-three (codes "rpc") r p c before.tables in
          let p2p_found = found (codes "p2p") ∙ lookup-three (codes "p2p") r p c before.tables in
          let consensus_found =
            found (codes "consensus") ∙ lookup-three (codes "consensus") r p c before.tables in
          let has_rpc = set_values-Holds (rpc_settings s) first.old refl in
          let has_p2p = set_values-Holds (p2p_settings s) second.old refl in
          let has_consensus = set_values-Holds (consensus_settings s) third.old refl in
          record {
            plain = has_base;
            rpc = HasTable-of (codes "rpc") (rpc_table s) r result rpc_found has_rpc;
            p2p = HasTable-of (codes "p2p") (p2p_table s) p result p2p_found has_p2p;
            consensus =
                HasTable-of (codes "consensus") (consensus_table s) c result consensus_found
                  has_consensus;
            required =
                ap (λ x. x >> rest_of result)
                  (require_values-Holds result.base (base_values s) has_base)
                ∙ ap (λ x. x >> rest_of_rpc result)
                    (require_table-Holds (codes "rpc") (rpc_values s) r result rpc_found has_rpc)
                ∙ ap (λ x. x >> require_table (codes "consensus") (consensus_values s) result)
                    (require_table-Holds (codes "p2p") (p2p_values s) p result p2p_found has_p2p)
                ∙ require_table-Holds (codes "consensus") (consensus_values s) c result
                    consensus_found has_consensus;
            base = λ key free.
                ap (lookup key) base
                ∙ lookup-set_values key (base_settings s) before.base (ground (arith, free));
            tables = λ key free. found key ∙ lookup-three key r p c before.tables ∙ ground arith;
          }
    where
      rest_of_rpc : TomlDocument → Result (Unit {0})
      rest_of_rpc document =
          require_table (codes "p2p") (p2p_values s) document
          >> require_table (codes "consensus") (consensus_values s) document

      rest_of : TomlDocument → Result (Unit {0})
      rest_of document = require_table (codes "rpc") (rpc_values s) document >> rest_of_rpc document

module _ ⦃packages : Packages⦄ where
  -- If the document with the settings is read back as it was written, then applying settings to a
  -- configuration that can be read either fails, with the error of a missing section, and leaves the
  -- file, or ends with a file that has every setting, passes the verification, and is as before in
  -- every other plain key and in every other table.
  pub apply_and_verify-IsConfigured :
      (s : NodeLaunchSettings) (content : Bytes) (before : TomlDocument)
      → ((d : TomlDocument)
          → apply_settings s before ≡ ok d
          → packages.toml_loads (packages.toml_dumps d) ≡ some d)
      → packages.toml_parse content ≡ some before
      → ((e : Error) × (apply_settings s before ≡ err e)
          × (apply_and_verify s content ≡ (err e, content)))
        ⊎ ((result : TomlDocument) × (apply_and_verify s content
              ≡ (ok tt, packages.toml_dumps result))
            × IsConfigured s before result)
  unfolding apply_and_verify rendered written verify
  apply_and_verify-IsConfigured s content before readable found =
      elim (Result-cases (apply_settings s before)) [
        | inr (e, failed) ↦ inl (
          e,
          failed,
          ap (written s content)
              (ap (λ r. parsed r >>= check) found ∙ ap (λ r. r >>= render) failed),
        )
        | inl (result, applied) ↦
            let configured = apply_settings-IsConfigured s before result applied in
            let again = read (packages.toml_dumps result) result (readable result applied) in
            inr (
              result,
              ap (written s content) (
                    ap (λ r. parsed r >>= check) found
                    ∙ ap (λ r. r >>= render) applied
                    ∙ ap (λ r. r >>= λ d. require_settings s d >> ok (packages.toml_dumps result))
                        again
                    ∙ ap (λ r. r >> ok (packages.toml_dumps result)) configured.required)
                  ∙ ap (λ r. (r, packages.toml_dumps result))
                      (ap (λ r. r >>= require_settings s) again ∙ configured.required),
              configured,
            )
      ]
    where
      render : TomlDocument → Result Bytes
      render applied = read_toml (packages.toml_dumps applied) >>= λ d.
          require_settings s d >> ok (packages.toml_dumps applied)

      check : TomlDocument → Result Bytes
      check document = apply_settings s document >>= render

      read : (c : Bytes) (d : TomlDocument) → packages.toml_loads c ≡ some d → read_toml c ≡ ok d
      read c d h = ground arith

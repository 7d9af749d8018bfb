-- ===== src/Agent/Service/Grastate.antt =====
-- ParseGraState of internal/agent/mariadb/service/mariadb.go on a file in the form that Galera writes.
use Prim.Native.String as Text
use text.Mathlib.TextLemmas.{append-eq-nil_iff, append-ne-nil_of_right_ne-nil, cons-append}
use galera_k8s_operator.Base.{
  String, ◌≡◌, ◌≢◌, refl, sym, ap, ◌∙◌, false, List, [], ◌∷◌, none, ok, ◌==◌, eq_iff, arith,
}
use galera_k8s_operator.Agent.Service.Texts.{
  NoColon, StartsPlain, IsTrimmed, is_comment, is_space, trim_left, trim_right, trim_space,
  split_colon, split_alone, split_first, trim_right-append, trim_right_colon, trim_left_plain,
}
use galera_k8s_operator.Agent.Service.{
  GraState, initial_state, set_entry, parse_parts, parse_line, parse_lines, parse_gra_state,
}

-- A line with a key and a value
abbrev pub entry : String → String → String
entry key value = Text.◌++◌ key (Text.◌++◌ ":" value)

-- A key as it is, and a value that ends in no space; neither holds a colon.
pub record IsKey (key : String) : Type 0 where
  pub key_NoColon : NoColon key
  pub key_StartsPlain : StartsPlain key
  pub no_comment : is_comment key ≡ false
  pub whole : trim_space key ≡ key

pub record IsValue (value : String) : Type 0 where
  pub value_NoColon : NoColon value
  pub value_IsTrimmed : IsTrimmed value

colon-ne-nil : ◌≢◌ {A = String} ":" ""
colon-ne-nil = ground (arith, eq_iff ":" "")

comment_key : (s t : String) → StartsPlain s → is_comment (Text.◌++◌ s t) ≡ is_comment s
unfolding is_comment
comment_key Text.[] t h = absurd h
comment_key (Text.◌∷◌ c s) t h = rw (cons-append c s t) refl

not_left : (value : String) → Text.◌++◌ ":" value ≢ ""
not_left value e = colon-ne-nil (append-eq-nil_iff.0 e).0

colon_left : (value : String) → IsTrimmed value → trim_right (Text.◌++◌ ":" value) ≢ ""
unfolding IsTrimmed
colon_left value h e = not_left value (sym (trim_right_colon value h) ∙ e)

module _ (key value : String) (k : IsKey key) (v : IsValue value) where
  trim_entry : trim_space (entry key value) ≡ entry key value
  unfolding trim_space IsTrimmed
  trim_entry =
      ap trim_right (trim_left_plain key (Text.◌++◌ ":" value) k.key_StartsPlain)
      ∙ trim_right-append key (Text.◌++◌ ":" value) (colon_left value v.value_IsTrimmed)
      ∙ ap (λ t. Text.◌++◌ key t) (trim_right_colon value v.value_IsTrimmed)

  split_entry : split_colon (entry key value) ≡ key ∷ value ∷ []
  split_entry =
      split_first key value k.key_NoColon ∙ ap (λ l. key ∷ l) (split_alone value v.value_NoColon)

  not_empty : (entry key value == "") ≡ false
  not_empty =
      let h = append-ne-nil_of_right_ne-nil key (not_left value) in
      ground (arith, eq_iff (entry key value) "")

  parse_entry :
      (st : GraState) → parse_line (entry key value) st ≡ ok (set_entry key (trim_space value) st)
  unfolding parse_line parse_parts
  parse_entry st =
      rw
        (
          trim_entry,
          comment_key key (Text.◌++◌ ":" value) k.key_StartsPlain,
          k.no_comment,
          not_empty,
          split_entry,
          parse_line,
          k.whole,
        )
        refl

version_IsKey : IsKey "version"
unfolding trim_space trim_left trim_right is_space is_comment
version_IsKey = record {
  key_NoColon = (refl, (refl, (refl, (refl, (refl, (refl, (refl, tt)))))));
  key_StartsPlain = refl;
  no_comment = refl;
  whole = refl;
}

uuid_IsKey : IsKey "uuid"
unfolding trim_space trim_left trim_right is_space is_comment
uuid_IsKey = record {
  key_NoColon = (refl, (refl, (refl, (refl, tt))));
  key_StartsPlain = refl;
  no_comment = refl;
  whole = refl;
}

seqno_IsKey : IsKey "seqno"
unfolding trim_space trim_left trim_right is_space is_comment
seqno_IsKey = record {
  key_NoColon = (refl, (refl, (refl, (refl, (refl, tt)))));
  key_StartsPlain = refl;
  no_comment = refl;
  whole = refl;
}

safe_to_bootstrap_IsKey : IsKey "safe_to_bootstrap"
unfolding trim_space trim_left trim_right is_space is_comment
safe_to_bootstrap_IsKey = record {
  key_NoColon = (
    refl,
    (
      refl,
      (
        refl,
        (
          refl,
          (
            refl,
            (
              refl,
              (
                refl,
                (refl, (refl, (refl, (refl, (refl, (refl, (refl, (refl, (refl, (refl, tt)))))))))),
              ),
            ),
          ),
        ),
      ),
    ),
  );
  key_StartsPlain = refl;
  no_comment = refl;
  whole = refl;
}

next_entry :
    (key value : String) (lines : List String) (st : GraState)
    → IsKey key
    → IsValue value
    → parse_lines (entry key value ∷ lines) none st
      ≡ parse_lines lines none (set_entry key (trim_space value) st)
unfolding parse_lines
next_entry key value lines st k v = rw (parse_lines, parse_entry key value k v st) refl

header :
    (lines : List String) (st : GraState)
    → parse_lines ("# GALERA saved state" ∷ lines) none st ≡ parse_lines lines none st
unfolding parse_lines parse_line trim_space trim_left trim_right is_space is_comment
header lines st = refl

-- A file in the form that Galera writes, a comment and then the four keys in this order, each with
-- a text that holds no colon and ends in no space, is read without error, as the texts of seqno and
-- safe_to_bootstrap without the spaces around them.
pub gra_state_read :
    (version uuid seqno safe : String)
    → IsValue version
    → IsValue uuid
    → IsValue seqno
    → IsValue safe
    → parse_gra_state (
        ok (
          "# GALERA saved state"
              ∷ entry "version" version
              ∷ entry "uuid" uuid
              ∷ entry "seqno" seqno
              ∷ entry "safe_to_bootstrap" safe
              ∷ [],
          none,
        ))
      ≡ (record { seqno = trim_space seqno; safe_to_bootstrap = trim_space safe }, none)
unfolding parse_gra_state parse_lines set_entry
gra_state_read version uuid seqno safe a b c d =
    let l4 = entry "safe_to_bootstrap" safe ∷ [] in
    let l3 = entry "seqno" seqno ∷ l4 in
    let l2 = entry "uuid" uuid ∷ l3 in
    let st = record initial_state { seqno = trim_space seqno } in
    header (entry "version" version ∷ l2) initial_state
    ∙ next_entry "version" version l2 initial_state version_IsKey a
    ∙ next_entry "uuid" uuid l3 initial_state uuid_IsKey b
    ∙ next_entry "seqno" seqno l4 initial_state seqno_IsKey c
    ∙ next_entry "safe_to_bootstrap" safe [] st safe_to_bootstrap_IsKey d

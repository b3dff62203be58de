-- ===== src/Filtering/BlockedLog.antt =====
-- pkg/filtering/blocked_logger.go: the lines of the log of blocked queries. The time in RFC 3339 and
-- the library's names of record types are parameters; a write to the open file appends to it.
use resolvit.Prelude.{
  ℕ, ◌≡◌, ◌≢◌, refl, ap, ◌∙◌, Bool, true, false, [], ◌∷◌, ◌++◌, append-nil, append_assoc, arith,
  if◌then◌else◌, All, Bool-cases, inl, inr,
}
use resolvit.Go.Text.{Text, codes, is_empty, is_space, emit_field, fields_from, fields}
use resolvit.Go.Decimal.{itoa, itoa-IsDigit, IsDigit}
use resolvit.Filtering.Filter.{BlockedEntry}

abbrev space : ℕ
space = b' '

-- The name of a type, or its number.
unfoldable pub record_type : (ℕ → Text) → ℕ → Text
record_type type_to_string qtype =
    let known = type_to_string qtype in if is_empty known then itoa qtype else known

-- fmt.Sprintf("%s client=%s type=%s name=%s\n", ...)
unfoldable pub line : (ℕ → Text) → Text → BlockedEntry → Text
line type_to_string now entry =
    let client = codes "client=" ++ entry.client in
    let typ = codes "type=" ++ record_type type_to_string entry.qtype in
    let name = codes "name=" ++ entry.name in
    now ++ space ∷ (client ++ space ∷ (typ ++ space ∷ (name ++ 10 ∷ [])))

-- The file after an entry is logged, if there is a file.
unfoldable pub log : (ℕ → Text) → Bool → Text → Text → BlockedEntry → Text
unfolding line
log type_to_string has_file now file entry =
    if has_file then file ++ line type_to_string now entry else file

-- A text without spaces.
abbrev pub IsWord : Text → Type 0
IsWord = All (λ c. is_space c ≡ false)

fields_from_word :
    (t cur s : Text) (c : ℕ)
    → IsWord t
    → is_space c ≡ true
    → fields_from cur (t ++ c ∷ s) ≡ emit_field (cur ++ t) (fields_from [] s)
unfolding fields_from
fields_from_word [] cur s c p sp = rw (sp, append-nil cur, fields_from) refl
fields_from_word (d ∷ t) cur s c p sp =
    rw (p.0, fields_from)
      (fields_from_word t (cur ++ d ∷ []) s c p.1 sp
        ∙ ap (λ x. emit_field x (fields_from [] s)) (append_assoc cur (d ∷ []) t))

fields_word :
    (d : ℕ) (t s : Text) (c : ℕ)
    → IsWord (d ∷ t)
    → is_space c ≡ true
    → fields ((d ∷ t) ++ c ∷ s) ≡ (d ∷ t) ∷ fields s
unfolding fields emit_field
fields_word d t s c p sp = fields_from_word (d ∷ t) [] s c p sp

fields_nonempty_word :
    (t s : Text) (c : ℕ)
    → t ≢ []
    → IsWord t
    → is_space c ≡ true
    → fields (t ++ c ∷ s) ≡ t ∷ fields s
fields_nonempty_word [] s c n p sp = absurd (n refl)
fields_nonempty_word (d ∷ t) s c n p sp = fields_word d t s c p sp

digits-IsWord : (s : Text) → All IsDigit s → IsWord s
digits-IsWord [] p = tt
digits-IsWord (c ∷ s) p = (digit c p.0, digits-IsWord s p.1)
  where
    digit : (c : ℕ) → IsDigit c → is_space c ≡ false
    digit c p = unfold is_space in ground arith

record_type-IsWord :
    (type_to_string : ℕ → Text) (qtype : ℕ)
    → IsWord (type_to_string qtype)
    → IsWord (record_type type_to_string qtype)
unfolding record_type
record_type-IsWord type_to_string qtype known =
    elim (Bool-cases (is_empty (type_to_string qtype))) [
      | inl e ↦ rw (e, record_type) (digits-IsWord (itoa qtype) (itoa-IsDigit qtype))
      | inr e ↦ rw (e, record_type) known
    ]

-- A line of the log splits at its spaces into the time, the client, the type and the name, if none of
-- them holds a space.
pub fields-line :
    (type_to_string : ℕ → Text) (now : Text) (entry : BlockedEntry)
    → now ≢ []
    → IsWord now
    → IsWord entry.client
    → IsWord (type_to_string entry.qtype)
    → IsWord entry.name
    → fields (line type_to_string now entry)
      ≡ now
        ∷ (codes "client=" ++ entry.client)
        ∷ (codes "type=" ++ record_type type_to_string entry.qtype)
        ∷ (codes "name=" ++ entry.name)
        ∷ []
unfolding line is_space fields
fields-line type_to_string now entry full n c t m =
    let client = codes "client=" ++ entry.client in
    let typ = codes "type=" ++ record_type type_to_string entry.qtype in
    let name = codes "name=" ++ entry.name in
    let name_line = name ++ 10 ∷ [] in
    let typ_line = typ ++ space ∷ name_line in
    let client_word : IsWord client = (refl, (refl, (refl, (refl, (refl, (refl, (refl, c))))))) in
    let typ_word : IsWord typ =
      (refl, (refl, (refl, (refl, (refl, record_type-IsWord type_to_string entry.qtype t))))) in
    let name_word : IsWord name = (refl, (refl, (refl, (refl, (refl, m))))) in
    fields_nonempty_word now (client ++ space ∷ typ_line) space full n refl
    ∙ ap (λ l. now ∷ l)
        (fields_nonempty_word client typ_line space (λ e. cc) client_word refl
          ∙ ap (λ l. client ∷ l)
              (fields_nonempty_word typ name_line space (λ e. cc) typ_word refl
                ∙ ap (λ l. typ ∷ l) (fields_nonempty_word name [] 10 (λ e. cc) name_word refl)))

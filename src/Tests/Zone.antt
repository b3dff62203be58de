-- ===== src/Tests/Zone.antt =====
-- A zone for tests: an alias, an address and a wildcard.
use resolvit.Prelude.{
  ◌≡◌, refl, ◌⊎◌, inl, inr, some, [], arith, ℕ, Bool-cases, if◌then◌else◌, false, ◌∙◌, sym, ap,
}
use resolvit.Go.Text.{Text, codes, text_eq, to_lower, trim_space, has_dot_suffix, is_space}
use resolvit.Go.Text.Equality.{text_eq_iff}
use resolvit.Go.Text.Trim.{starts_solid, ends_solid}
use resolvit.Go.Dict.{lookup, insert, lookup-insert_found}
use resolvit.Go.Ip.{parse_ip}
use resolvit.Records.{Record, Store, get, normalize_name}
use resolvit.Records.Names.{IsNormal}
use resolvit.Records.Load.{AllValid, IsValid, insert-AllValid, AllValid-nil}
use resolvit.Records.Lookup.{get-Answers}
use resolvit.Handler.Local.{Descends, dotted}

abbrev pub www : Text
www = codes "www.lan."

abbrev pub host : Text
host = codes "host.lan."

abbrev pub star : Text
star = codes "*.dev.lan."

abbrev pub alias : Record
alias = record { typ = codes "cname"; content = codes "host.lan" }

abbrev pub address : Record
address = record { typ = codes "a"; content = codes "10.0.0.1" }

abbrev pub zone : Store
zone = insert www alias (insert host address (insert star address []))

IsNormal-www : IsNormal www
unfolding starts_solid ends_solid to_lower has_dot_suffix is_space
IsNormal-www = record { begins = refl; ends = refl; lowered = refl; dotted = refl }

IsNormal-host : IsNormal host
unfolding starts_solid ends_solid to_lower has_dot_suffix is_space
IsNormal-host = record { begins = refl; ends = refl; lowered = refl; dotted = refl }

IsNormal-star : IsNormal star
unfolding starts_solid ends_solid to_lower has_dot_suffix is_space
IsNormal-star = record { begins = refl; ends = refl; lowered = refl; dotted = refl }

IsValid-alias : IsValid alias
IsValid-alias = record { known = inl refl; address = λ e. absurd (cc) }

IsValid-address : IsValid address
unfolding parse_ip
IsValid-address = record { known = inr refl; address = λ e. refl }

pub zone-AllValid : AllValid zone
zone-AllValid =
    insert-AllValid (insert host address (insert star address [])) www alias IsNormal-www
      IsValid-alias
      (insert-AllValid (insert star address []) host address IsNormal-host IsValid-address
        (insert-AllValid [] star address IsNormal-star IsValid-address AllValid-nil))

zone_values :
    (name : Text) (found : Record)
    → lookup name zone ≡ some found
    → (found ≡ alias) ⊎ (found ≡ address)
zone_values name found h = elim (lookup-insert_found www name alias found _ h) [
  | inl e ↦ inl (sym e)
  | inr k ↦ elim (lookup-insert_found host name address found _ k) [
    | inl e ↦ inr (sym e)
    | inr l ↦ elim (lookup-insert_found star name address found [] l) [
      | inl e ↦ inr (sym e)
      | inr n ↦ unfold lookup in (cc)
    ]
  ]
]

zone_finds :
    (name : Text) (found : Record)
    → get zone name ≡ some found
    → (found ≡ alias) ⊎ (found ≡ address)
zone_finds name found h = elim (get-Answers zone name found h) [
  | inl direct ↦ zone_values (normalize_name name) found direct
  | inr (pre, suf, miss, near) ↦ zone_values _ found near.stored
]

pub get-host : get zone host ≡ some address
unfolding get lookup insert text_eq normalize_name trim_space to_lower has_dot_suffix is_space
get-host = refl

pub get-www : get zone www ≡ some alias
unfolding get lookup insert text_eq normalize_name trim_space to_lower has_dot_suffix is_space
get-www = refl

abbrev pub rank : Text → ℕ
rank t = if text_eq t host then 0 else 1

rank-alias : (found : Record) → found ≡ alias → rank (dotted found.content) ≡ 0
unfolding text_eq
rank-alias found e = ap (λ (x : Record). rank (dotted x.content)) e

rank_other : (t : Text) → text_eq t host ≡ false → rank t ≡ 1
rank_other t e = rw e refl

pub zone-Descends : Descends zone rank
zone-Descends t found hit alias_typ = elim (zone_finds t found hit) [
  | inr e ↦ absurd (cc (ap (λ (x : Record). x.typ) e))
  | inl e ↦ elim (Bool-cases (text_eq t host)) [
    | inl here ↦
        let same : some found ≡ some address =
          sym hit ∙ ap (get zone) ((text_eq_iff t host).0 here) ∙ get-host in
        absurd (cc)
    | inr other ↦ omega (arith, rank-alias found e, rank_other t other)
  ]
]

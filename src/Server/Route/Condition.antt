-- ===== src/Server/Route/Condition.antt =====
-- One condition of a rule: the field that its path names shows a text that the pattern matches.
use mathlib.Core.List.{append_assoc, append-nil}
use netherchat.Base.{
  ℕ, ◌≡◌, ◌≢◌, refl, sym, ◌∙◌, subst, ap, ◌⊎◌, ◌↔◌, inl, inr, true, false, some, List, [], ◌∷◌,
  ◌++◌, Text, codes, ◌==◌, ==_iff, eqb, All, Any, Option-cases, Bool-cases, arith,
}
use netherchat.Server.Route.{
  Json, Fields, Regexp, regex_meta, has_byte, contains_any, field_of, split_dots, descend, lookup,
  to_string, match_value, holds,
}

-- The names of a path: the parts between its dots.
abbrev NoDot : Text → Type 0
NoDot p = All (λ b. b ≢ 46) p

abbrev pub IsPath : List Text → Text → Type 0
IsPath [] t = ⊥
IsPath (p ∷ []) t = NoDot p × (t ≡ p)
IsPath (p ∷ q ∷ ps) t = NoDot p × (r : Text) × (t ≡ p ++ 46 ∷ r) × IsPath (q ∷ ps) r

-- The first field with the name holds the value.
pub data IsField (p : Text) (v : Json) : Fields → Type 0 where
  here : {fs : Fields} → IsField p v (Fields.with_field p v fs)
  there :
      {k : Text} {w : Json} {fs : Fields}
      → k ≢ p
      → IsField p v fs
      → IsField p v (Fields.with_field k w fs)

-- The value lies under the names, each of them a field of an object.
abbrev pub IsAt : List Text → Json → Json → Type 0
IsAt [] j v = j ≡ v
IsAt (p ∷ ps) (Json.object fs) v = (w : Json) × IsField p w fs × IsAt ps w v
IsAt (p ∷ ps) _ v = ⊥

-- The text that a scalar is compared by.
abbrev pub IsShown : Json → Text → Type 0
IsShown (Json.text t) s = s ≡ t
IsShown (Json.boolean true) s = s ≡ codes "true"
IsShown (Json.boolean false) s = s ≡ codes "false"
IsShown (Json.number x) s =
    ((x.is_inf ≡ false) × (x.is_nan ≡ false) × (x.is_trunc ≡ true) × (s ≡ x.format_int))
    ⊎ (((x.is_inf ≡ true) ⊎ (x.is_nan ≡ true) ⊎ (x.is_trunc ≡ false)) × (s ≡ x.format_float))
IsShown _ s = ⊥

abbrev IsMeta : ℕ → Type 0
IsMeta b = Any (λ c. c ≡ b) (codes ".*+?()[]{}|^$\\")

field_of_sound : (p : Text) (fs : Fields) (v : Json) → field_of p fs ≡ some v → IsField p v fs
unfolding field_of
field_of_sound p Fields.empty v h = absurd (cc h)
field_of_sound p (Fields.with_field k w fs) v h = elim (Bool-cases (k == p)) [
  | inl e ↦
      let q : w ≡ v = ground arith in
      let r : k ≡ p = (==_iff k p).0 e in
      subst (λ x. IsField p v (Fields.with_field x w fs)) (sym r)
        (subst (λ x. IsField p v (Fields.with_field p x fs)) (sym q) here)
  | inr n ↦ there (λ r. ground (arith, (==_iff k p).1 r)) (field_of_sound p fs v (ground arith))
]

field_of_complete : (p : Text) (fs : Fields) (v : Json) → IsField p v fs → field_of p fs ≡ some v
unfolding field_of
field_of_complete p Fields.empty v i = elim i [ ]
field_of_complete p (Fields.with_field _ _ fs) v here = ground (arith, (==_iff p p).1 refl)
field_of_complete p (Fields.with_field k w fs) v (there n i) = elim (Bool-cases (k == p)) [
  | inl e ↦ absurd (n ((==_iff k p).0 e))
  | inr e ↦ ground (arith, field_of_complete p fs v i)
]

descend_sound : (j : Json) (ps : List Text) (v : Json) → descend j ps ≡ some v → IsAt ps j v
unfolding descend
descend_sound j [] v h = cc h
descend_sound (Json.object fs) (p ∷ ps) v h = elim (Option-cases (field_of p fs)) [
  | inl n ↦ absurd (ground arith)
  | inr (w, q) ↦ (w, field_of_sound p fs w q, descend_sound w ps v (ground arith))
]
descend_sound (Json.text t) (p ∷ ps) v h = absurd (cc h)
descend_sound (Json.boolean b) (p ∷ ps) v h = absurd (cc h)
descend_sound (Json.number x) (p ∷ ps) v h = absurd (cc h)
descend_sound Json.null (p ∷ ps) v h = absurd (cc h)
descend_sound Json.array (p ∷ ps) v h = absurd (cc h)

descend_complete : (j : Json) (ps : List Text) (v : Json) → IsAt ps j v → descend j ps ≡ some v
unfolding descend
descend_complete j [] v h = ap some h
descend_complete (Json.object fs) (p ∷ ps) v (w, f, h) =
    let q = field_of_complete p fs w f in let r = descend_complete w ps v h in ground arith
descend_complete (Json.text t) (p ∷ ps) v h = absurd h
descend_complete (Json.boolean b) (p ∷ ps) v h = absurd h
descend_complete (Json.number x) (p ∷ ps) v h = absurd h
descend_complete Json.null (p ∷ ps) v h = absurd h
descend_complete Json.array (p ∷ ps) v h = absurd h

split-end : (w p : Text) → NoDot p → split_dots w p ≡ (w ++ p) ∷ []
unfolding split_dots
split-end w [] h = ap (λ x. x ∷ []) (sym (append-nil w))
split-end w (b ∷ p) h =
    let k = split-end (w ++ b ∷ []) p h.1 in
    let a = append_assoc w (b ∷ []) p in let n = h.0 in ground arith

split-dot : (w p r : Text) → NoDot p → split_dots w (p ++ 46 ∷ r) ≡ (w ++ p) ∷ split_dots [] r
unfolding split_dots
split-dot w [] r h = ap (λ x. x ∷ split_dots [] r) (sym (append-nil w))
split-dot w (b ∷ p) r h =
    let k = split-dot (w ++ b ∷ []) p r h.1 in
    let a = append_assoc w (b ∷ []) p in let n = h.0 in ground arith

split-path : (ps : List Text) (t : Text) → IsPath ps t → split_dots [] t ≡ ps
split-path [] t h = absurd h
split-path (p ∷ []) t (n, e) = subst (λ x. split_dots [] x ≡ p ∷ []) (sym e) (split-end [] p n)
split-path (p ∷ q ∷ ps) t (n, r, e, h) =
    subst (λ x. split_dots [] x ≡ p ∷ q ∷ ps) (sym e)
      (split-dot [] p r n ∙ ap (λ x. p ∷ x) (split-path (q ∷ ps) r h))

IsPath-cons :
    (p : Text) (qs : List Text) (r : Text) → NoDot p → IsPath qs r → IsPath (p ∷ qs) (p ++ 46 ∷ r)
IsPath-cons p [] r n h = absurd h
IsPath-cons p (q ∷ qs) r n h = (n, r, refl, h)

NoDot-snoc : (w : Text) (b : ℕ) → NoDot w → b ≢ 46 → NoDot (w ++ b ∷ [])
NoDot-snoc [] b h n = (n, tt)
NoDot-snoc (c ∷ w) b h n = (h.0, NoDot-snoc w b h.1 n)

split-IsPath : (w t : Text) → NoDot w → IsPath (split_dots w t) (w ++ t)
unfolding split_dots
split-IsPath w [] n = (n, append-nil w)
split-IsPath w (b ∷ t) n = elim (Bool-cases (eqb b 46)) [
  | inl e ↦
      let q : 46 ≡ b = ground arith in
      rw e (
        subst (λ x. IsPath (w ∷ split_dots [] t) (w ++ x ∷ t)) q
          (IsPath-cons w (split_dots [] t) t n (split-IsPath [] t tt)))
  | inr e ↦ rw e (
      subst (IsPath (split_dots (w ++ b ∷ []) t)) (append_assoc w (b ∷ []) t)
        (split-IsPath (w ++ b ∷ []) t (NoDot-snoc w b n (λ q. ground arith))))
]

to_string_iff : (v : Json) (s : Text) → (to_string v ≡ some s) ↔ IsShown v s
unfolding to_string
to_string_iff (Json.text t) s = ((λ h. cc h), (λ h. cc h))
to_string_iff (Json.boolean true) s = ((λ h. cc h), (λ h. cc h))
to_string_iff (Json.boolean false) s = ((λ h. cc h), (λ h. cc h))
to_string_iff (Json.number x) s = ground arith
to_string_iff Json.null s = ((λ h. cc h), (λ h. absurd h))
to_string_iff Json.array s = ((λ h. cc h), (λ h. absurd h))
to_string_iff (Json.object fs) s = ((λ h. cc h), (λ h. absurd h))

has_byte_iff : (c : ℕ) (bs : Text) → (has_byte c bs ≡ true) ↔ Any (λ b. b ≡ c) bs
has_byte_iff c [] = ground arith
has_byte_iff c (b ∷ bs) = ground (arith, has_byte_iff c bs)

contains_any_iff : (t : Text) → (contains_any t regex_meta ≡ true) ↔ Any IsMeta t
unfolding contains_any
contains_any_iff [] = ground arith
contains_any_iff (b ∷ t) =
    let (f, g) = has_byte_iff b regex_meta in
    let (p, q) = contains_any_iff t in
    elim (Bool-cases (has_byte b regex_meta)) [
      | inl e ↦ rw e ((λ _. inl (f e)), (λ _. refl))
      | inr e ↦
          rw e ((λ h. inr (p h)), λ h. elim h [ inl a ↦ absurd (cc (sym e ∙ g a)) | inr a ↦ q a ])
    ]

module _ ⦃re : Regexp⦄ where
  -- A pattern with a metacharacter is an anchored regular expression, any other one a plain text.
  abbrev pub IsMatch : Text → Text → Type 0
  IsMatch pattern s =
      (Any IsMeta pattern × (re.match_string pattern s ≡ some true))
      ⊎ ((Any IsMeta pattern → ⊥) × (pattern ≡ s))

  -- The payload has a scalar at the path, and the pattern matches its text.
  pub record IsMet (payload : Fields) (path pattern : Text) : Type 0 where
    pub names : List Text
    pub parts : IsPath names path
    pub value : Json
    pub at : IsAt names (Json.object payload) value
    pub shown : Text
    pub shows : IsShown value shown
    pub matched : IsMatch pattern shown

  match_value_iff : (pattern s : Text) → (match_value pattern s ≡ true) ↔ IsMatch pattern s
  unfolding match_value
  match_value_iff pattern s =
      let (f, g) = contains_any_iff pattern in
      elim (Bool-cases (contains_any pattern regex_meta)) [
        | inl e ↦ elim (Option-cases (re.match_string pattern s)) [
          | inl n ↦ (
            (λ h. absurd (ground arith)),
            λ h. elim h [ inl (a, b) ↦ absurd (cc (sym n ∙ b)) | inr (a, b) ↦ absurd (a (f e)) ],
          )
          | inr (b, n) ↦ (
            (λ h. inl (f e, n ∙ ap some (ground arith))),
            λ h. elim h [ inl (a, c) ↦ ground arith | inr (a, c) ↦ absurd (a (f e)) ],
          )
        ]
        | inr e ↦ (
          (λ h. inr ((λ a. cc (sym e ∙ g a)), (==_iff pattern s).0 (ground arith))),
          λ h. elim h [
            | inl (a, c) ↦ absurd (cc (sym e ∙ g a))
            | inr (a, c) ↦ ground (arith, (==_iff pattern s).1 c)
          ],
        )
      ]

  pub holds_iff :
      (payload : Fields) (path pattern : Text)
      → (holds payload path pattern ≡ true) ↔ IsMet payload path pattern
  unfolding holds lookup
  holds_iff payload path pattern = (
    (λ h. elim (Option-cases (descend (Json.object payload) (split_dots [] path))) [
      | inl n ↦ absurd (ground arith)
      | inr (v, q) ↦ elim (Option-cases (to_string v)) [
        | inl n ↦ absurd (ground arith)
        | inr (s, r) ↦ record {
          names = split_dots [] path;
          parts = split-IsPath [] path tt;
          value = v;
          at = descend_sound (Json.object payload) (split_dots [] path) v q;
          shown = s;
          shows = (to_string_iff v s).0 r;
          matched = (match_value_iff pattern s).0 (ground arith);
        }
      ]
    ]),
    λ m.
        let a = split-path m.names path m.parts in
        let b : descend (Json.object payload) (split_dots [] path) ≡ some m.value =
          subst (λ ps. descend (Json.object payload) ps ≡ some m.value) (sym a)
            (descend_complete (Json.object payload) m.names m.value m.at) in
        let c = (to_string_iff m.value m.shown).1 m.shows in
        let d = (match_value_iff pattern m.shown).1 m.matched in ground arith,
  )

-- ===== src/Server/Alert/Signed.antt =====
-- What authentication means.
use netherchat.Base.{
  ◌≡◌, ◌≢◌, refl, ◌∙◌, ap, ◌↔◌, ◌⊎◌, inl, inr, some, [], Text, ◌==◌, ==_iff, is_empty, is_empty_iff,
  is_empty-true_iff, Bool-cases, Option-cases, Result-cases, ok, arith,
}
use netherchat.Protocol.Statement.{IsSized, alert}
use netherchat.Protocol.Injective.{bytes-injective}
use netherchat.Server.Alert.{
  Alert, Source, Mac, signed_bytes, verify_hmac, check_secret, authenticate,
}

-- The values of the alert fit Go's types.
abbrev pub IsSizedAlert : Alert → Type 0
IsSizedAlert a = IsSized (alert a.source a.severity a.kind a.summary a.ref a.ts)

signed-Statement :
    (a b : Alert)
    → a.signature ≡ b.signature
    → alert a.source a.severity a.kind a.summary a.ref a.ts
      ≡ alert b.source b.severity b.kind b.summary b.ref b.ts
    → a ≡ b
signed-Statement a b s e = cc

module _ ⦃mac : Mac⦄ where
  -- The signature is the hexadecimal code of the HMAC of the alert's bytes.
  abbrev pub IsSigned : Text → Alert → Type 0
  IsSigned secret a =
      (a.signature ≢ []) × (mac.hex_decode a.signature ≡ some (mac.hmac secret (signed_bytes a)))

  -- The source has a credential, and each that it has passes.
  pub record IsAuthentic (src : Source) (a : Alert) (header_token : Text) : Type 0 where
    pub declared : (src.hmac_secret ≢ []) ⊎ (src.token ≢ [])
    pub signed : src.hmac_secret ≢ [] → IsSigned src.hmac_secret a
    pub bearer : src.token ≢ [] → header_token ≡ src.token

  verify_hmac_iff : (secret : Text) (a : Alert) → (verify_hmac secret a ≡ ok tt) ↔ IsSigned secret a
  unfolding verify_hmac
  verify_hmac_iff secret a = elim (Option-cases (mac.hex_decode a.signature)) [
    | inl n ↦ ((λ h. absurd (ground arith)), (λ (e, d). absurd (ground arith)))
    | inr (got, g) ↦ (
      (λ h. (
        (is_empty_iff a.signature).0 (ground arith),
        g ∙ ap some ((==_iff got (mac.hmac secret (signed_bytes a))).0 (ground arith)),
      )),
      (λ (e, d).
          ground
            (arith, (is_empty_iff a.signature).1 e, ==_iff got (mac.hmac secret (signed_bytes a)))),
    )
  ]

  check_secret_iff :
      (src : Source) (a : Alert)
      → (check_secret src a ≡ ok tt) ↔ (src.hmac_secret ≢ [] → IsSigned src.hmac_secret a)
  unfolding check_secret
  check_secret_iff src a = elim (Bool-cases (is_empty src.hmac_secret)) [
    | inl e ↦ (
      (λ h n. absurd (n ((is_empty-true_iff src.hmac_secret).0 e))),
      (λ f. rw (check_secret, e) refl),
    )
    | inr e ↦ (
      (λ h n. (verify_hmac_iff src.hmac_secret a).0 (ground arith)),
      (λ f.
          rw (check_secret, e)
            ((verify_hmac_iff src.hmac_secret a).1 (f ((is_empty_iff src.hmac_secret).0 e)))),
    )
  ]

  -- Authenticate lets an alert pass exactly if its source declares a secret or a token, the signature is
  -- the HMAC of the alert's bytes where a secret is declared, and the bearer token is the source's where
  -- one is declared.
  pub authenticate_iff :
      (src : Source) (a : Alert) (header_token : Text)
      → (authenticate src a header_token ≡ ok tt) ↔ IsAuthentic src a header_token
  unfolding authenticate
  authenticate_iff src a header_token = (there, back)
    where
      there : authenticate src a header_token ≡ ok tt → IsAuthentic src a header_token
      there h = elim (Result-cases (check_secret src a)) [
        | inr (e, q) ↦ absurd (ground arith)
        | inl (u, q) ↦ record {
          declared = elim (Bool-cases (is_empty src.hmac_secret)) [
            | inr n ↦ inl ((is_empty_iff src.hmac_secret).0 n)
            | inl y ↦ elim (Bool-cases (is_empty src.token)) [
              | inr n ↦ inr ((is_empty_iff src.token).0 n)
              | inl z ↦ absurd (ground arith)
            ]
          ];
          signed = (check_secret_iff src a).0 q;
          bearer = λ n.
              let m = (is_empty_iff src.token).1 n in
              (==_iff header_token src.token).0 (ground arith);
        }
      ]

      back : IsAuthentic src a header_token → authenticate src a header_token ≡ ok tt
      back i =
          let q = (check_secret_iff src a).1 i.signed in
          elim (Bool-cases (is_empty src.token)) [
            | inr n ↦
                let t =
                  (==_iff header_token src.token).1 (i.bearer ((is_empty_iff src.token).0 n)) in
                ground arith
            | inl y ↦ elim i.declared [
              | inl d ↦ let n = (is_empty_iff src.hmac_secret).1 d in ground arith
              | inr d ↦ absurd (d ((is_empty-true_iff src.token).0 y))
            ]
          ]

  -- Two alerts with one signature that both pass Authenticate at a source with an HMAC secret are the
  -- same alert, or two different texts with one HMAC under the secret are at hand, where the values of
  -- the alerts fit Go's types.
  pub authenticate-same_signature :
      (src : Source) (a b : Alert) (token token' : Text)
      → src.hmac_secret ≢ []
      → authenticate src a token ≡ ok tt
      → authenticate src b token' ≡ ok tt
      → a.signature ≡ b.signature
      → IsSizedAlert a
      → IsSizedAlert b
      → (a ≡ b)
        ⊎ ((x : Text) × (y : Text) × (x ≢ y)
            × (mac.hmac src.hmac_secret x ≡ mac.hmac src.hmac_secret y))
  authenticate-same_signature src a b token token' n ha hb e sa sb =
      let p = (((authenticate_iff src a token).0 ha).signed n).1 in
      let q = (((authenticate_iff src b token').0 hb).signed n).1 in
      let m : mac.hmac src.hmac_secret (signed_bytes a)
          ≡ mac.hmac src.hmac_secret (signed_bytes b) =
        cc in
      elim (Bool-cases (signed_bytes a == signed_bytes b)) [
        | inl y ↦ inl (
            signed-Statement a b e (
              bytes-injective (alert a.source a.severity a.kind a.summary a.ref a.ts)
                (alert b.source b.severity b.kind b.summary b.ref b.ts) sa sb
                ((==_iff (signed_bytes a) (signed_bytes b)).0 y)))
        | inr f ↦ inr (
          signed_bytes a,
          signed_bytes b,
          (λ z. ground (arith, ==_iff (signed_bytes a) (signed_bytes b))),
          m,
        )
      ]

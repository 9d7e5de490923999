-- ===== src/Record/Sealer/Session.antt =====
-- A sealing session: a new sealer, then co-signatures and endorsements in any order.
use netherchat.Base.{◌≡◌, refl, true, none, List, [], ◌∷◌, Text, Result, ok, err}
use netherchat.Base.Dict.{get}
use netherchat.Record.Library.{Library, fingerprint}
use netherchat.Record.Entry.{Entry}
use netherchat.Record.Chain.{zero_hash}
use netherchat.Record.Chain.Linked.{IsLinked}
use netherchat.Record.Sealed.{SealedRecord, Endorsement}
use netherchat.Record.Sealed.Verify.{verify}
use netherchat.Record.Sealer.{
  Sealer, SealerError, new_sealer, add_cosignature, add_endorsement, finalize,
}
use netherchat.Record.Sealer.Ready.{
  IsReady, new_sealer-IsReady, add_cosignature-IsReady, add_endorsement-IsReady, finalize-verify,
}

pub data Call : Type 0 where
  cosign : Text → Text → Call
  endorse : Text → Text → Endorsement → Call

module _ ⦃lib : Library⦄ where
  -- A call that fails leaves the sealer as it was.
  abbrev pub after : Sealer → Result SealerError (Sealer × Text) → Sealer
  after s (ok (t, fpr)) = t
  after s (err e) = s

  abbrev pub step : Sealer → Call → Sealer
  step s (cosign key sig) = after s (add_cosignature s key sig)
  step s (endorse key sig d) = after s (add_endorsement s key sig d)

  abbrev pub run : Sealer → List Call → Sealer
  run s [] = s
  run s (c ∷ cs) = run (step s c) cs

  -- No key co-signs bare while an endorsement of the key is on file.
  abbrev pub NoDowngrade : Sealer → List Call → Type 0
  NoDowngrade s [] = Unit
  NoDowngrade s (cosign key sig ∷ cs) =
      (get (fingerprint key) s.endorsements ≡ none) × NoDowngrade (step s (cosign key sig)) cs
  NoDowngrade s (endorse key sig d ∷ cs) = NoDowngrade (step s (endorse key sig d)) cs

  run-IsReady : (s : Sealer) (cs : List Call) → NoDowngrade s cs → IsReady s → IsReady (run s cs)
  run-IsReady s [] n r = r
  run-IsReady s (cosign key sig ∷ cs) n r =
      run-IsReady (step s (cosign key sig)) cs n.1 (kept (add_cosignature s key sig) refl)
    where
      kept :
          (x : Result SealerError (Sealer × Text))
          → add_cosignature s key sig ≡ x
          → IsReady (after s x)
      kept (ok (t, fpr)) e = add_cosignature-IsReady s t key sig fpr n.0 e r
      kept (err e) _ = r
  run-IsReady s (endorse key sig d ∷ cs) n r =
      run-IsReady (step s (endorse key sig d)) cs n (kept (add_endorsement s key sig d) refl)
    where
      kept :
          (x : Result SealerError (Sealer × Text))
          → add_endorsement s key sig d ≡ x
          → IsReady (after s x)
      kept (ok (t, fpr)) e = add_endorsement-IsReady s t key sig fpr d e r
      kept (err e) _ = r

  -- A record that a sealing session finalizes passes Verify, where the session starts from a linked
  -- chain, collects no approvals, and no key that has endorsed co-signs bare later.
  pub session-verify :
      (room by now : Text) (es : List Entry) (cs : List Call) (r : SealedRecord)
      → IsLinked 0 zero_hash es
      → NoDowngrade (new_sealer room by es) cs
      → finalize (run (new_sealer room by es) cs) now ≡ ok r
      → (verify r).0.valid ≡ true
  session-verify room by now es cs r linked n h =
      finalize-verify (run (new_sealer room by es) cs) now r
        (run-IsReady (new_sealer room by es) cs n (new_sealer-IsReady room by es linked)) h

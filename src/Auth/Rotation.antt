-- ===== src/Auth/Rotation.antt =====
-- What the rotation of refresh tokens comes to, over sequences of calls on the token service.
use ai_devsecops_command_cen.Auth.Refresh.{
  RefreshJson, RefreshStore, delete_entry, get_entry, set_entry, RefreshEntry, TokenServiceDeps,
  RefreshDecoded, issue, rotate_refresh, rotate_decoded, rotate_entry, verify_jwt,
}
use ai_devsecops_command_cen.Common.{
  ℕ, ◌≡◌, refl, inl, inr, true, Option, none, some, List, [], ◌∷◌, arith, Bool-cases, All,
}
use ai_devsecops_command_cen.Common.Text.{text_eq, text_eq_refl}
use ai_devsecops_command_cen.Crypto.Splitting.{Text}
use ai_devsecops_command_cen.Auth.Token.{Platform, AccessTokenClaims}

pub data Call : Type 0 where
  issuing : AccessTokenClaims → (jti : Text) (now_ms : ℕ) → Call
  rotating : (token jti : Text) (now_ms : ℕ) → Call

abbrev NoPayload : RefreshStore → Type 0
NoPayload store = All (λ e. e.1.payload ≡ none) store

set_entry-NoPayload :
    (store : RefreshStore) (jti : Text) (entry : RefreshEntry)
    → entry.payload ≡ none
    → NoPayload store
    → NoPayload (set_entry store jti entry)
unfolding set_entry
set_entry-NoPayload [] jti entry h s = (h, tt)
set_entry-NoPayload ((j, e) ∷ store) jti entry h (p, s) = elim (Bool-cases (text_eq j jti)) [
  | inl t ↦ rw t (h, s)
  | inr t ↦ rw t (p, set_entry-NoPayload store jti entry h s)
]

delete_entry-NoPayload :
    (store : RefreshStore) (jti : Text) → NoPayload store → NoPayload (delete_entry store jti)
unfolding delete_entry
delete_entry-NoPayload [] jti s = tt
delete_entry-NoPayload ((j, e) ∷ store) jti (p, s) = elim (Bool-cases (text_eq j jti)) [
  | inl t ↦ rw t (delete_entry-NoPayload store jti s)
  | inr t ↦ rw t (p, delete_entry-NoPayload store jti s)
]

get_entry-NoPayload :
    (store : RefreshStore) (jti : Text) (e : RefreshEntry)
    → NoPayload store
    → get_entry store jti ≡ some e
    → e.payload ≡ none
unfolding get_entry
get_entry-NoPayload [] jti e s g = cc
get_entry-NoPayload ((j, f) ∷ store) jti e (p, s) g = elim (Bool-cases (text_eq j jti)) [
  | inl t ↦ let same : some f ≡ some e = ground arith in let is_f : f ≡ e = cc in rw (← is_f) p
  | inr t ↦ get_entry-NoPayload store jti e s (ground arith)
]

get_entry-delete_entry :
    (store : RefreshStore) (jti : Text) → get_entry (delete_entry store jti) jti ≡ none
unfolding get_entry delete_entry
get_entry-delete_entry [] jti = refl
get_entry-delete_entry ((j, e) ∷ store) jti = elim (Bool-cases (text_eq j jti)) [
  | inl t ↦ rw t (get_entry-delete_entry store jti)
  | inr t ↦ rw t (ground (arith, get_entry-delete_entry store jti))
]

module _ (js : Platform) (json : RefreshJson) (deps : TokenServiceDeps) where
  unfoldable pub call : Call → RefreshStore → RefreshStore
  call (issuing payload jti now_ms) store = (issue js json deps payload jti now_ms store).1
  call (rotating token jti now_ms) store = (rotate_refresh js json deps token jti now_ms store).1

  unfoldable pub calls : List Call → RefreshStore → RefreshStore
  unfolding call
  calls [] store = store
  calls (c ∷ cs) store = calls cs (call c store)

  rotate_entry-NoPayload :
      (d : RefreshDecoded) (o : Option RefreshEntry) (jti : Text) (now_ms : ℕ)
      (store : RefreshStore)
      → NoPayload store
      → get_entry store d.jti ≡ o
      → NoPayload (rotate_entry js json deps d o jti now_ms store).1
  rotate_entry-NoPayload d none jti now_ms store s g = s
  rotate_entry-NoPayload d (some e) jti now_ms store s g = elim (Bool-cases (text_eq e.sub d.sub)) [
    | inl t ↦ rw (t, get_entry-NoPayload store d.jti e s g) (delete_entry-NoPayload store d.jti s)
    | inr t ↦ rw t s
  ]

  rotate_decoded-NoPayload :
      (o : Option RefreshDecoded) (jti : Text) (now_ms : ℕ) (store : RefreshStore)
      → NoPayload store
      → NoPayload (rotate_decoded js json deps o jti now_ms store).1
  rotate_decoded-NoPayload none jti now_ms store s = s
  rotate_decoded-NoPayload (some d) jti now_ms store s =
      rotate_entry-NoPayload d (get_entry store d.jti) jti now_ms store s refl

  call-NoPayload : (c : Call) (store : RefreshStore) → NoPayload store → NoPayload (call c store)
  unfolding call issue rotate_refresh
  call-NoPayload (issuing payload jti now_ms) store s = set_entry-NoPayload store jti _ refl s
  call-NoPayload (rotating token jti now_ms) store s =
      rotate_decoded-NoPayload (verify_jwt js json deps token now_ms) jti now_ms store s

  calls-NoPayload :
      (cs : List Call) (store : RefreshStore) → NoPayload store → NoPayload (calls cs store)
  unfolding calls
  calls-NoPayload [] store s = s
  calls-NoPayload (c ∷ cs) store s = calls-NoPayload cs (call c store) (call-NoPayload c store s)

  -- After any calls on a new token service, rotating a refresh token that verifies, is stored and
  -- belongs to its subject gives no tokens, and the refresh token is no longer stored.
  pub rotate_refresh_burns :
      (cs : List Call) (token jti : Text) (now_ms : ℕ) (d : RefreshDecoded) (e : RefreshEntry)
      → verify_jwt js json deps token now_ms ≡ some d
      → get_entry (calls cs []) d.jti ≡ some e
      → e.sub ≡ d.sub
      → let (result, store) = rotate_refresh js json deps token jti now_ms (calls cs []) in
        (result ≡ none) × (get_entry store d.jti ≡ none)
  unfolding rotate_refresh
  rotate_refresh_burns cs token jti now_ms d e verified stored own =
      let subject : text_eq e.sub d.sub ≡ true = rw own (text_eq_refl d.sub) in
      let bare = get_entry-NoPayload (calls cs []) d.jti e (calls-NoPayload cs [] tt) stored in
      rw (verified, stored, subject, bare) (refl, get_entry-delete_entry (calls cs []) d.jti)

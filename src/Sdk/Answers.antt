-- ===== src/Sdk/Answers.antt =====
-- What the client makes of a reply whose body was not decoded, sdk/controlplane/client.go: such as a page
-- that a proxy sends with status 200.
use minato.Prelude.{
  ℕ, ◌==◌, ◌≡◌, ◌≢◌, refl, sym, ap, ◌∙◌, ◌↔◌, inl, inr, false, not, Bool-cases, Option, none, some,
  List, String, ==_iff, if◌then◌else◌,
}
use minato.Cluster.{Outcome, ok, fail}
use minato.Sdk.Types.{GenGameServer}
use minato.Sdk.Convert.{from_gen_game_server}
use minato.Sdk.Client.{
  Reply, Answer, value, panicked, checked_reply, dereferenced, decoded_server,
  sdk_list_game_servers, sdk_get_game_server, api_error,
}

-- A reply with the status that is expected, and without a decoded body.
abbrev pub IsUndecoded : {A : Type 0} → ℕ → Outcome (Reply A) → Type 0
IsUndecoded expected (fail e) = ⊥
IsUndecoded expected (ok r) = (r.status ≡ expected) × (r.decoded ≡ none)

module _ (error_field : String → String) {A B : Type 0} (expected : ℕ) where
  expected_reply :
      (make : Option A → Answer B) (r : Reply A)
      → r.status ≡ expected
      → checked_reply error_field expected make (ok r) ≡ make r.decoded
  unfolding checked_reply
  expected_reply make r h =
      ap (λ b. if not b then api_error error_field r.status r.body else make r.decoded)
        ((==_iff r.status expected).1 h)

  refused_reply :
      (make : Option A → Answer B) (r : Reply A)
      → (r.status == expected) ≡ false
      → checked_reply error_field expected make (ok r) ≢ panicked
  unfolding checked_reply api_error
  refused_reply make r h e =
      cc (e, ap (λ b. if not b then api_error error_field r.status r.body else make r.decoded) h)

  dereferenced_nil : (f : A → B) (o : Option A) → dereferenced error_field f o ≡ panicked → o ≡ none
  dereferenced_nil f none h = refl
  dereferenced_nil f (some a) h = absurd (cc h)

  checked_reply-panics :
      (f : A → B) (o : Outcome (Reply A))
      → (checked_reply error_field expected (dereferenced error_field f) o ≡ panicked)
        ↔ IsUndecoded expected o
  unfolding checked_reply
  checked_reply-panics f (fail e) = ((λ h. absurd (cc h)), λ h. absurd h)
  checked_reply-panics f (ok r) = (
    (λ h. elim (Bool-cases (r.status == expected)) [
      | inl a ↦
          let s : r.status ≡ expected = (==_iff r.status expected).0 a in
          (
            s,
            dereferenced_nil f r.decoded
                (sym (expected_reply (dereferenced error_field f) r s) ∙ h),
          )
      | inr a ↦ absurd (refused_reply (dereferenced error_field f) r a h)
    ]),
    λ (s, d). expected_reply (dereferenced error_field f) r s ∙ ap (dereferenced error_field f) d,
  )

module _ (error_field : String → String) where
  -- On a reply with the expected status whose body was not decoded, ListGameServers panics, and on no
  -- other; GetGameServer never panics, and returns a server without any field for such a reply.
  pub blank_replies :
      (o : Outcome (Reply (List GenGameServer))) (q : Outcome (Reply GenGameServer))
      → ((sdk_list_game_servers error_field o ≡ panicked) ↔ IsUndecoded 200 o)
        × (sdk_get_game_server error_field q ≢ panicked)
        × (IsUndecoded 200 q
            → sdk_get_game_server error_field q ≡ value (from_gen_game_server none))
  unfolding sdk_list_game_servers sdk_get_game_server
  blank_replies o q = (checked_reply-panics error_field 200 _ o, get_never q, get_empty q)
    where
      get_never :
          (q : Outcome (Reply GenGameServer))
          → checked_reply error_field 200 (decoded_server error_field) q ≢ panicked
      get_never (fail e) h = cc h
      get_never (ok r) h = elim (Bool-cases (r.status == 200)) [
        | inl a ↦ cc (
          h,
          expected_reply error_field 200 (decoded_server error_field) r ((==_iff r.status 200).0 a),
        )
        | inr a ↦ refused_reply error_field 200 (decoded_server error_field) r a h
      ]

      get_empty :
          (q : Outcome (Reply GenGameServer))
          → IsUndecoded 200 q
          → checked_reply error_field 200 (decoded_server error_field) q
            ≡ value (from_gen_game_server none)
      get_empty (fail e) h = absurd h
      get_empty (ok r) (s, d) =
          expected_reply error_field 200 (decoded_server error_field) r s
          ∙ ap (decoded_server error_field) d

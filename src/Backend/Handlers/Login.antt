-- ===== src/Backend/Handlers/Login.antt =====
-- Who is logged in: `HandleClientAuthentication`, the guards of the other handlers, and new accounts.
use gladiator.Prelude.{
  ℕ, ◌≤◌, ◌≡◌, refl, sym, ◌⊎◌, inl, inr, Bool, true, false, not, some, List, Text, length, arith,
  if◌then◌else◌, eqb, eqb_iff, subst, Option-cases, Bool-cases,
}
use gladiator.Packet.Encoder.{Code, client_authentication, create_new_account}
use gladiator.Backend.Session.{
  RemoteUser, Services, Session, Outcome, authenticate_user, connect_to_lobby, create_user, call,
  send_to_game, set_logon_data, connected_over_websocket,
}
use gladiator.Backend.Requests.Account.{
  ClientAuthenticationRequestData, CreateNewAccountRequestData, parse_client_authentication,
  parse_create_new_account,
}
use gladiator.Backend.Handlers.Account.{
  yes, no, bad_length, handle_client_authentication, handle_create_new_account,
}

-- Sending changes neither the user nor the calls.
send_to_game-same :
    (svc : Services) (c : Code) (payload : List ℕ) (s : Session)
    → let r = (send_to_game svc c payload s).0 in
      (r.user_id ≡ s.user_id) × (r.username ≡ s.username) × (r.calls ≡ s.calls)
unfolding send_to_game
send_to_game-same svc c payload s = (ground arith, ground arith, ground arith)

-- The session has no user yet, and the services know the user that the request names and let it in.
abbrev pub Agreed : Services → List ℕ → Session → RemoteUser → Type 0
Agreed svc req s user =
    (s.user_id ≡ 0)
    × (d : ClientAuthenticationRequestData) × (parse_client_authentication req ≡ some d)
    × (svc.authenticates s.calls d.username d.password ≡ some user)
    × (svc.accepts (call (authenticate_user d.username d.password) s).calls (connect_to_lobby user)
        ≡ true)

abbrev pub HasUser : Session → ℕ → Text → Type 0
HasUser s id name = (s.user_id ≡ id) × (s.username ≡ name)

-- The session gets a user exactly if the services agreed, and then the user that they gave; otherwise
-- its user is what it was.
pub handle_client_authentication_lem :
    (svc : Services) (req : List ℕ) (s : Session)
    → let r = (handle_client_authentication svc req s).0 in
      ((user : RemoteUser) × Agreed svc req s user × HasUser r user.user_id user.username)
      ⊎ (((user : RemoteUser) → Agreed svc req s user → ⊥) × HasUser r s.user_id s.username)
unfolding handle_client_authentication
handle_client_authentication_lem svc req s = elim (Bool-cases (eqb s.user_id 0)) [
  | inr z ↦ inr (λ user a. ground (arith, eqb_iff s.user_id 0, z, a.0), rw z (refl, refl))
  | inl z ↦ elim (Option-cases (parse_client_authentication req)) [
    | inl e ↦ inr (λ user a. absurd (cc (e, a.2)), rw (z, e) (refl, refl))
    | inr (d, e) ↦
        let asked : Session = call (authenticate_user d.username d.password) s in
        elim (Option-cases (svc.authenticates s.calls d.username d.password)) [
          | inl f ↦
              let (id, name, _) = send_to_game-same svc client_authentication no asked in
              inr (
                λ user a. let (_, d', e', f', _) = a in absurd (cc (e, e', f, f')),
                rw (z, e, f) (id, name),
              )
          | inr (user, f) ↦
              let connected : Session = call (connect_to_lobby user) asked in
              elim (Bool-cases (svc.accepts asked.calls (connect_to_lobby user))) [
                | inr g ↦
                    let (id, name, _) = send_to_game-same svc client_authentication no connected in
                    inr (
                      λ other a. let (_, d', e', f', g') = a in absurd (cc (e, e', f, f', g, g')),
                      rw (z, e, f, g) (id, name),
                    )
                | inl g ↦
                    let (id, name, _) =
                      send_to_game-same svc client_authentication yes
                        (set_logon_data user (connected_over_websocket user asked)) in
                    inl (
                      user,
                      (ground (arith, eqb_iff s.user_id 0, z), d, e, f, g),
                      rw (z, e, f, g) (id, name),
                    )
              ]
        ]
  ]
]

-- A user name and a password that an account may have.
abbrev pub Fits : Text → Type 0
Fits t = (1 ≤ length t) × (length t ≤ 8)

bad_length-cases :
    (t : Text) → ((bad_length t ≡ false) × Fits t) ⊎ ((bad_length t ≡ true) × (Fits t → ⊥))
bad_length-cases t = elim (Bool-cases (bad_length t)) [
  | inl e ↦ inr (e, λ h. absurd (grind (arith, e, h, eqb_iff (length t) 0)))
  | inr e ↦
      inl (e, (ground (arith, e, eqb_iff (length t) 0), ground (arith, e, eqb_iff (length t) 0)))
]

pick :
    (b : Bool) (f : List ℕ → Session × Outcome)
    → (if not b then f no else f yes) ≡ f (if b then yes else no)
pick true f = refl
pick false f = refl

-- A request with a user name and a password of one to eight bytes each makes one call, to create that
-- user, and is answered by whether it succeeded. Any other request is answered with a refusal, and makes
-- no call.
pub handle_create_new_account_lem :
    (svc : Services) (req : List ℕ) (s : Session)
    → ((d : CreateNewAccountRequestData) × (parse_create_new_account req ≡ some d)
        × Fits d.username
        × Fits d.password
        × (handle_create_new_account svc req s
            ≡ send_to_game svc create_new_account
                (if svc.accepts s.calls (create_user d.username d.password) then yes else no)
                (call (create_user d.username d.password) s)))
      ⊎ (((d : CreateNewAccountRequestData)
            → parse_create_new_account req ≡ some d
            → Fits d.username
            → Fits d.password
            → ⊥)
          × (handle_create_new_account svc req s ≡ send_to_game svc create_new_account no s))
unfolding handle_create_new_account
handle_create_new_account_lem svc req s = elim (Option-cases (parse_create_new_account req)) [
  | inl e ↦ inr (λ d f h k. absurd (cc (e, f)), rw (e, handle_create_new_account) refl)
  | inr (d, e) ↦ elim (bad_length-cases d.username) [
    | inr (b, bad) ↦ inr (
      λ d' f h k. let same : d ≡ d' = cc (e, f) in bad (subst (λ x. Fits x.username) (sym same) h),
      rw (e, b, handle_create_new_account) refl,
    )
    | inl (b, fits) ↦ elim (bad_length-cases d.password) [
      | inr (c, bad) ↦ inr (
        λ d' f h k.
            let same : d ≡ d' = cc (e, f) in bad (subst (λ x. Fits x.password) (sym same) k),
        rw (e, b, c, handle_create_new_account) refl,
      )
      | inl (c, fits') ↦ inl (
        d,
        e,
        fits,
        fits',
        rw (e, b, c, handle_create_new_account)
            (pick (svc.accepts s.calls (create_user d.username d.password)) (λ p.
              send_to_game svc create_new_account p (call (create_user d.username d.password) s))),
      )
    ]
  ]
]

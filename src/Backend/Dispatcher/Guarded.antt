-- ===== src/Backend/Dispatcher/Guarded.antt =====
-- Which calls a session makes before its user is known: the calls, and what sending and calling keep.
use gladiator.Prelude.{
  ℕ, ◌≡◌, ◌≢◌, refl, ap, ◌∙◌, ◌⊎◌, inl, inr, Bool, true, false, ◌&&◌, ◌||◌, List, [], ◌∷◌, ◌++◌,
  arith,
}
use gladiator.Packet.Encoder.{Code}
use gladiator.Backend.Session.{
  Services, Session, Call, RemoteUser, authenticate_user, connect_to_lobby, create_user, call,
  send_to_game, set_logon_data, connected_over_websocket,
}

-- The calls that need no user: logging in, the connection to the lobby, and a new account.
abbrev pub is_anonymous : Call → Bool
is_anonymous (authenticate_user name password) = true
is_anonymous (connect_to_lobby user) = true
is_anonymous (create_user name password) = true
is_anonymous _ = false

-- A connection to the lobby that succeeds, behind the calls made before.
abbrev pub let_in : Services → List Call → Call → Bool
let_in svc past (connect_to_lobby user) = svc.accepts past (connect_to_lobby user)
let_in svc past _ = false

unfoldable pub connected : Services → List Call → List Call → Bool
connected svc past [] = false
connected svc past (c ∷ calls) = let_in svc past c || connected svc (past ++ (c ∷ [])) calls

-- Each call needs no user, or stands behind a connection to the lobby that succeeded. `seen` says that one did
-- among the calls before.
unfoldable pub guarded : Services → List Call → Bool → List Call → Bool
guarded svc past seen [] = true
guarded svc past seen (c ∷ calls) =
    (seen || is_anonymous c) && guarded svc (past ++ (c ∷ [])) (seen || let_in svc past c) calls

-- The session's calls are guarded, and with a user or a connection it was let into the lobby.
abbrev pub Guarded : Services → Session → Type 0
Guarded svc s =
    (guarded svc [] false s.calls ≡ true)
    × ((s.user_id ≡ 0) ⊎ (connected svc [] s.calls ≡ true))
    × ((s.ws_conn ≡ false) ⊎ (connected svc [] s.calls ≡ true))

pub append_nil : (xs : List Call) → xs ≡ xs ++ []
append_nil [] = refl
append_nil (x ∷ xs) = ap (◌∷◌ x) (append_nil xs)

append_assoc_calls : (xs ys zs : List Call) → (xs ++ ys) ++ zs ≡ xs ++ (ys ++ zs)
append_assoc_calls [] ys zs = refl
append_assoc_calls (x ∷ xs) ys zs = ap (◌∷◌ x) (append_assoc_calls xs ys zs)

or_assoc : (a b c : Bool) → (a || b || c) ≡ (a || (b || c))
or_assoc a b c = ground arith

or_false : (a : Bool) → a ≡ (a || false)
or_false a = ground arith

module _ (svc : Services) where
  guarded-append :
      (past : List Call) (b : Bool) (xs ys : List Call)
      → guarded svc past b (xs ++ ys)
        ≡ (guarded svc past b xs && guarded svc (past ++ xs) (b || connected svc past xs) ys)
  unfolding guarded connected
  guarded-append past b [] ys =
      ap (λ p. guarded svc p b ys) (append_nil past)
      ∙ ap (λ c. guarded svc (past ++ []) c ys) (or_false b)
  guarded-append past b (x ∷ xs) ys =
      let now = past ++ (x ∷ []) in
      let b' = b || let_in svc past x in
      let behind =
        guarded-append now b' xs ys
        ∙ ap (λ p. guarded svc now b' xs && guarded svc p (b' || connected svc now xs) ys)
            (append_assoc_calls past (x ∷ []) xs)
        ∙ ap (λ c. guarded svc now b' xs && guarded svc (past ++ (x ∷ xs)) c ys)
            (or_assoc b (let_in svc past x) (connected svc now xs)) in
      ap (λ z. (b || is_anonymous x) && z) behind ∙ ground arith

  guarded_of_seen : (past xs : List Call) → guarded svc past true xs ≡ true
  unfolding guarded
  guarded_of_seen past [] = refl
  guarded_of_seen past (x ∷ xs) = guarded_of_seen (past ++ (x ∷ [])) xs

  connected-append :
      (past xs ys : List Call)
      → connected svc past (xs ++ ys) ≡ (connected svc past xs || connected svc (past ++ xs) ys)
  unfolding connected
  connected-append past [] ys = ap (λ p. connected svc p ys) (append_nil past)
  connected-append past (x ∷ xs) ys =
      let now = past ++ (x ∷ []) in
      let behind =
        connected-append now xs ys
        ∙ ap (λ p. connected svc now xs || connected svc p ys)
            (append_assoc_calls past (x ∷ []) xs) in
      ap (λ z. let_in svc past x || z) behind ∙ ground arith

-- The session has the same user and connection, and made further calls.
abbrev pub Extends : Session → Session → Type 0
Extends s s' =
    (s'.user_id ≡ s.user_id)
    × (s'.ws_conn ≡ s.ws_conn)
    × (more : List Call) × (s'.calls ≡ s.calls ++ more)

-- The session has the same user and connection, and made no call.
abbrev pub Quiet : Session → Session → Type 0
Quiet s s' = (s'.user_id ≡ s.user_id) × (s'.ws_conn ≡ s.ws_conn) × (s'.calls ≡ s.calls)

pub Quiet-Extends : (s s' : Session) → Quiet s s' → Extends s s'
Quiet-Extends s s' (id, ws, calls) = (id, ws, [], calls ∙ append_nil s.calls)

pub Extends-trans : (s t u : Session) → Extends s t → Extends t u → Extends s u
Extends-trans s t u (id, ws, more, e) (id', ws', more', e') = (
  id' ∙ id,
  ws' ∙ ws,
  more ++ more',
  e' ∙ ap (λ l. l ++ more') e ∙ append_assoc_calls s.calls more more',
)

pub send_to_game-Quiet :
    (svc : Services) (code : Code) (payload : List ℕ) (s : Session)
    → Quiet s (send_to_game svc code payload s).0
unfolding send_to_game
send_to_game-Quiet svc code payload s = (ground arith, ground arith, ground arith)

pub call-Extends : (c : Call) (s : Session) → Extends s (call c s)
call-Extends c s = (refl, refl, c ∷ [], refl)

module _ (svc : Services) where
  pub Quiet-Guarded : (s s' : Session) → Quiet s s' → Guarded svc s → Guarded svc s'
  Quiet-Guarded s s' (id, ws, calls) (g, k, l) = (
    ap (guarded svc [] false) calls ∙ g,
    ground (arith, id, k, ap (connected svc []) calls),
    ground (arith, ws, l, ap (connected svc []) calls),
  )

  -- A session that was let into the lobby may call what it likes.
  connected-Guarded :
      (s s' : Session)
      → connected svc [] s.calls ≡ true
      → Extends s s'
      → Guarded svc s
      → Guarded svc s'
  connected-Guarded s s' was (id, ws, more, e) (g, k, l) =
      let still : connected svc [] s'.calls ≡ true =
        ap (connected svc []) e ∙ connected-append svc [] s.calls more ∙ ground (arith, was) in
      (
        ap (guarded svc [] false) e
            ∙ guarded-append svc [] false s.calls more
            ∙ ground (arith, g, was, guarded_of_seen svc s.calls more),
        inr still,
        inr still,
      )

  -- So may a session with a user, and one with a connection.
  pub Extends-Guarded :
      (s s' : Session) → s.user_id ≢ 0 → Extends s s' → Guarded svc s → Guarded svc s'
  Extends-Guarded s s' n e (g, k, l) =
      connected-Guarded s s' (elim k [ inl z ↦ absurd (n z) | inr c ↦ c ]) e (g, k, l)

  pub wired-Guarded :
      (s s' : Session) → s.ws_conn ≡ true → Extends s s' → Guarded svc s → Guarded svc s'
  wired-Guarded s s' n e (g, k, l) = connected-Guarded s s' (ground (arith, n, l)) e (g, k, l)

  -- Any session may call what needs no user.
  pub call-Guarded :
      (c : Call) (s : Session) → is_anonymous c ≡ true → Guarded svc s → Guarded svc (call c s)
  unfolding guarded connected
  call-Guarded c s a (g, k, l) = (
    guarded-append svc [] false s.calls (c ∷ []) ∙ ground (arith, g, a),
    ground (arith, k, connected-append svc [] s.calls (c ∷ [])),
    ground (arith, l, connected-append svc [] s.calls (c ∷ [])),
  )

  -- A user is set behind a connection to the lobby that succeeded.
  pub set_logon_data-Guarded :
      (user : RemoteUser) (s : Session)
      → svc.accepts s.calls (connect_to_lobby user) ≡ true
      → Guarded svc s
      → Guarded svc (set_logon_data user (connected_over_websocket user s))
  unfolding connected
  set_logon_data-Guarded user s ok v =
      let (g, k, l) = call-Guarded (connect_to_lobby user) s refl v in
      let in_lobby : connected svc [] (s.calls ++ (connect_to_lobby user ∷ [])) ≡ true =
        connected-append svc [] s.calls (connect_to_lobby user ∷ []) ∙ ground (arith, ok) in
      (g, inr in_lobby, inr in_lobby)

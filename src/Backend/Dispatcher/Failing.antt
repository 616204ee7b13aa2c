-- ===== src/Backend/Dispatcher/Failing.antt =====
-- A handshake that fails behind the ping.
use gladiator.Prelude.{
  ℕ, ◌<◌, ◌≡◌, refl, ap, ◌∙◌, true, Option, none, some, List, Text, ltb, get_or, length, arith,
}
use gladiator.Backend.Session.{Outcome, done, error, panic}
use gladiator.Backend.Proxy.{ProxyClient}
use gladiator.Backend.Client.{Client, Remote}
use gladiator.Backend.Handlers.Account.{
  handle_client_host_and_username, handle_authorization_handshake,
}
use gladiator.Backend.Dispatcher.{
  Sessions, serve, close_session, shake, behind_header, shake_both, handshake, handle_client,
  add_session,
}

module _ {P : Type 0} (r : Remote) (px : ProxyClient P) where
  pinged :
      (ping : List ℕ) (second third : Option (List ℕ)) (id : Text) (c : Client P)
      (sessions : Sessions r px)
      → get_or ping 0 0 ≡ 1
      → handshake r px (some ping) second third id c sessions ≡ (
        add_session r px id c sessions,
        (shake_both r px second third c).0,
        (shake_both r px second third c).1,
      )
  unfolding handshake
  pinged ping second third id c sessions e = rw (e) refl

  -- What `handleClient` does behind the handshake.
  abbrev behind :
      List (Option (List ℕ))
      → Text
      → Sessions r px × Client P × Outcome
      → Sessions r px × Client P × Outcome
  behind reads id (sessions, c, shaken) =
      let (served, ended) = serve r px reads c in
      elim shaken [
        | error ↦ (sessions, c, error)
        | panic ↦ (sessions, c, panic)
        | done ↦ elim ended [
          | panic ↦ (sessions, served, panic)
          | done ↦ (sessions, served, done)
          | error ↦
              let (closed, left, closing) = close_session r px id served sessions in
              (left, closed, elim closing [ done ↦ error | error ↦ error | panic ↦ panic ])
        ]
      ]

  -- Behind a ping that is right: when the second read gives fewer than four bytes, the program panics; when that
  -- read fails, the connection ends with an error, but its session stays among the sessions.
  pub failed_handshake :
      (ping read : List ℕ) (third : Option (List ℕ)) (reads : List (Option (List ℕ))) (id : Text)
      (c : Client P) (sessions : Sessions r px)
      → get_or ping 0 0 ≡ 1
      → length read < 4
      → (handle_client r px (some ping) (some read) third reads id c sessions
          ≡ (add_session r px id c sessions, c, panic))
        × (handle_client r px (some ping) none third reads id c sessions
            ≡ (add_session r px id c sessions, c, error))
  unfolding handle_client
  failed_handshake ping read third reads id c sessions e short =
      let small : ltb (length read) 4 ≡ true = ground (arith, short) in
      let first_fails : shake r px (some read) handle_client_host_and_username c ≡ (c, panic) =
        rw (small, shake, behind_header) in
      let short_read : shake_both r px (some read) third c ≡ (c, panic) =
        ap
          (λ (x : Client P × Outcome). elim x.1 [
            | done ↦ shake r px third handle_authorization_handshake x.0
            | error ↦ (x.0, error)
            | panic ↦ (x.0, panic)
          ])
          first_fails in
      (
        ap (behind reads id) (
            pinged ping (some read) third id c sessions e
            ∙ ap (λ x. (add_session r px id c sessions, x.0, x.1)) short_read),
        ap (behind reads id) (pinged ping none third id c sessions e),
      )

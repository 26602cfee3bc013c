-- ===== src/Tunnel/Session/Frames.antt =====
-- The data frames of an established session of crates/libs/styrene-tunnel/src/session/mod.rs: sent,
-- received, repeated and out of order.
use styrene_rs.Base.{
  ℕ, ◌+◌, ◌^◌, ◌<◌, ◌≡◌, refl, sym, ap, ◌∙◌, inl, inr, true, false, not, some, List, [], ◌∷◌,
  if◌then◌else◌, lt→ltb, Bool-cases, length, Result, ok, err, Result-cases,
}
use styrene_rs.Base.Bytes.{bytes_eq, bytes_eq_iff}
use styrene_rs.Tunnel.TunnelError.{established, TunnelError, session_not_found, replay_detected}
use styrene_rs.Tunnel.Crypto.{Primitives, encrypt, decrypt}
use styrene_rs.Tunnel.Crypto.Laws.{Laws, decrypt-encrypt}
use styrene_rs.Tunnel.Replay.{no_packets, mark_seen}
use styrene_rs.Tunnel.Replay.Window.{
  seen, passes, Represents, check_replay-passes, passes-new, passes_again, mark_seen-Represents,
}
use styrene_rs.Tunnel.Payloads.{PqcDataPayload}
use styrene_rs.Tunnel.Session.{max_sequence, PqcSession, encrypt_data, decrypt_data}

-- What the session does with one frame when the numbers of the frames accepted so far are `xs`.
abbrev pub admit :
    Primitives
    → List ℕ
    → List ℕ
    → PqcDataPayload
    → PqcSession
    → PqcSession × Result TunnelError (List ℕ)
admit prims key xs frame s =
    if not (bytes_eq frame.session_id s.session_id)
    then (s, err (session_not_found frame.session_id))
    else if not (passes xs frame.sequence)
    then (s, err (replay_detected frame.sequence))
    else elim (decrypt prims key frame.sequence frame.ciphertext) [
      | err problem ↦ (s, err problem)
      | ok plaintext ↦
          (record s { replay_window = mark_seen s.replay_window frame.sequence }, ok plaintext)
    ]

-- No number stands twice.
abbrev pub Distinct : List ℕ → Type 0
Distinct [] = Unit
Distinct (x ∷ xs) = (seen x xs ≡ false) × Distinct xs

module _ (prims : Primitives) where
  -- Where the window of an established session with a cipher represents the numbers accepted so
  -- far, decrypt_data does what the description by the list of those numbers says, on every
  -- branch: another session id, a number that does not pass, a frame that does not open, and a
  -- frame that is delivered and marked.
  pub decrypt_data-admit :
      (key xs : List ℕ) (frame : PqcDataPayload) (s : PqcSession)
      → s.state ≡ established
      → s.cipher ≡ some key
      → Represents xs s.replay_window
      → decrypt_data prims frame s ≡ admit prims key xs frame s
  unfolding decrypt_data
  decrypt_data-admit key xs frame s live keyed r =
      let checked = check_replay-passes xs s.replay_window frame.sequence r in
      elim (Bool-cases (bytes_eq frame.session_id s.session_id)) [
        | inr other ↦ rw (decrypt_data, live, other) refl
        | inl same ↦ elim (Bool-cases (passes xs frame.sequence)) [
          | inr late ↦ rw (decrypt_data, live, same, checked, late) refl
          | inl fresh ↦ elim (Result-cases (decrypt prims key frame.sequence frame.ciphertext)) [
            | inl (plaintext, opened) ↦
                let next = mark_seen s.replay_window frame.sequence in
                rw (decrypt_data, live, same, checked, fresh, keyed, opened)
                  (ap (λ state. (record s { state = state; replay_window = next }, ok plaintext))
                    (sym live))
            | inr (problem, failed) ↦
                rw (decrypt_data, live, same, checked, fresh, keyed, failed)
                  (ap (λ state. (record s { state = state }, err problem)) (sym live))
          ]
        ]
      ]

  -- The frames in their order: the session after them, and the numbers of the accepted ones, the latest
  -- first.
  abbrev pub receive : List PqcDataPayload → List ℕ → PqcSession → PqcSession × List ℕ
  receive [] xs s = (s, xs)
  receive (frame ∷ frames) xs s =
      let (s', outcome) = decrypt_data prims frame s in
      receive frames (elim outcome [ ok plaintext ↦ frame.sequence ∷ xs | err problem ↦ xs ]) s'

  -- What stays true while frames arrive.
  pub record Live (key xs : List ℕ) (s : PqcSession) : Type 0 where
    pub state : s.state ≡ established
    pub cipher : s.cipher ≡ some key
    pub window : Represents xs s.replay_window
    pub once : Distinct xs

  decrypt_data-Live :
      (key xs : List ℕ) (frame : PqcDataPayload) (s : PqcSession)
      → Live key xs s
      → (let (s', outcome) = decrypt_data prims frame s in
          Live key (elim outcome [ ok plaintext ↦ frame.sequence ∷ xs | err problem ↦ xs ]) s')
  decrypt_data-Live key xs frame s l =
      rw (decrypt_data-admit key xs frame s l.state l.cipher l.window)
        (elim (Bool-cases (bytes_eq frame.session_id s.session_id)) [
          | inr other ↦ rw other l
          | inl same ↦ elim (Bool-cases (passes xs frame.sequence)) [
            | inr late ↦ rw (same, late) l
            | inl fresh ↦ elim (Result-cases (decrypt prims key frame.sequence frame.ciphertext)) [
              | inr (problem, failed) ↦ rw (same, fresh, failed) l
              | inl (plaintext, opened) ↦
                  rw (same, fresh, opened)
                    (record {
                      state = l.state;
                      cipher = l.cipher;
                      window =
                          mark_seen-Represents xs s.replay_window frame.sequence l.window fresh;
                      once = (passes-new xs frame.sequence fresh, l.once);
                    })
            ]
          ]
        ])

  receive-Live :
      (key xs : List ℕ) (frames : List PqcDataPayload) (s : PqcSession)
      → Live key xs s
      → (let (s', accepted) = receive frames xs s in Live key accepted s')
  receive-Live key xs [] s l = l
  receive-Live key xs (frame ∷ frames) s l =
      let (s', outcome) = decrypt_data prims frame s in
      receive-Live key (elim outcome [ ok plaintext ↦ frame.sequence ∷ xs | err problem ↦ xs ])
        frames s' (decrypt_data-Live key xs frame s l)

  -- An established session with a cipher and a fresh replay window that is given any sequence of
  -- data frames accepts no sequence number twice, stays established, and its window represents
  -- the numbers it accepted.
  pub receive-Distinct :
      (key : List ℕ) (frames : List PqcDataPayload) (s : PqcSession)
      → s.state ≡ established
      → s.cipher ≡ some key
      → s.replay_window ≡ no_packets
      → (let (s', accepted) = receive frames [] s in
          Distinct accepted × Represents accepted s'.replay_window × (s'.state ≡ established))
  receive-Distinct key frames s live keyed none_yet =
      let l =
        receive-Live key [] frames s
          (record { state = live; cipher = keyed; window = none_yet; once = tt }) in
      (l.once, l.window, l.state)

  encrypt_data_established :
      (key plaintext ciphertext : List ℕ) (s : PqcSession)
      → s.state ≡ established
      → s.cipher ≡ some key
      → s.send_sequence < max_sequence
      → encrypt prims key s.send_sequence plaintext ≡ ok ciphertext
      → encrypt_data prims plaintext s ≡ (
        record s { send_sequence = s.send_sequence + 1 },
        ok (record {
          session_id = s.session_id;
          sequence = s.send_sequence;
          ciphertext = ciphertext;
        }),
      )
  unfolding encrypt_data
  encrypt_data_established key plaintext ciphertext s live keyed room sealed =
      let frame : PqcDataPayload = record {
        session_id = s.session_id;
        sequence = s.send_sequence;
        ciphertext = ciphertext;
      } in
      rw (encrypt_data, live, lt→ltb s.send_sequence max_sequence room, keyed, sealed)
        (ap
          (λ c. (
            record s { state = established; cipher = c; send_sequence = s.send_sequence + 1 },
            ok frame,
          ))
          keyed)

  -- With primitives that obey the laws, a plaintext shorter than 2 ^ 36 bytes that an
  -- established session below its last sequence number encrypts is decrypted to the same
  -- plaintext by a live session with the same key and id whose accepted numbers let the number
  -- pass; the sender counts one frame, the receiver marks the number, and the same frame given
  -- again is refused as a replay.
  pub decrypt_data-encrypt_data :
      (key xs plaintext : List ℕ) (sender receiver : PqcSession)
      → Laws prims
      → sender.state ≡ established
      → sender.cipher ≡ some key
      → sender.send_sequence < max_sequence
      → length plaintext < 2 ^ 36
      → Live key xs receiver
      → receiver.session_id ≡ sender.session_id
      → passes xs sender.send_sequence ≡ true
      → (frame : PqcDataPayload) × (encrypt_data prims plaintext sender
          ≡ (record sender { send_sequence = sender.send_sequence + 1 }, ok frame))
        × (frame.sequence ≡ sender.send_sequence)
        × (decrypt_data prims frame receiver ≡ (
          record receiver { replay_window = mark_seen receiver.replay_window frame.sequence },
          ok plaintext,
        ))
        × (decrypt_data prims frame (decrypt_data prims frame receiver).0
            ≡ ((decrypt_data prims frame receiver).0, err (replay_detected frame.sequence)))
  decrypt_data-encrypt_data key xs plaintext sender receiver laws live keyed room small l same
        fresh =
      let sequence = sender.send_sequence in
      let (ciphertext, sealed, opened, _) =
        decrypt-encrypt prims laws key sequence 0 plaintext small in
      let frame : PqcDataPayload = record {
        session_id = sender.session_id;
        sequence = sequence;
        ciphertext = ciphertext;
      } in
      let here = (bytes_eq_iff sender.session_id receiver.session_id).1 (sym same) in
      let received : decrypt_data prims frame receiver ≡ (
        record receiver { replay_window = mark_seen receiver.replay_window sequence },
        ok plaintext,
      ) =
        decrypt_data-admit key xs frame receiver l.state l.cipher l.window
        ∙ rw (here, fresh, opened) refl in
      (
        frame,
        encrypt_data_established key plaintext ciphertext sender live keyed room sealed,
        refl,
        received,
        rw received (
            decrypt_data-admit key (sequence ∷ xs) frame
              (record receiver { replay_window = mark_seen receiver.replay_window sequence })
              l.state l.cipher
              (mark_seen-Represents xs receiver.replay_window sequence l.window fresh)
            ∙ rw (here, passes_again xs sequence) refl),
      )

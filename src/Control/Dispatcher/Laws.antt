-- ===== src/Control/Dispatcher/Laws.antt =====
-- What the dispatcher of src/control/command_dispatcher.cpp answers.
use ras_pi_zero_cam.Prelude.{
  Bool-cases, inl, inr, ==_iff, ℕ, ◌≡◌, ◌≢◌, ◌↔◌, refl, sym, ap, ◌∙◌, true, false, some, List, [],
  ◌∷◌, ◌==◌,
}
use ras_pi_zero_cam.Prelude.Text.{same}
use ras_pi_zero_cam.Control.Dispatcher.{
  Outcome, returns, throws, Reply, invalid_json, call, register_command, find, answer, look_up,
  named, parsed, dispatch, Handler, Handlers,
}

same_refl : (xs : List ℕ) → same xs xs ≡ true
same_refl [] = refl
same_refl (x ∷ xs) = rw ((==_iff x x).1 refl) (same_refl xs)

same_sound : (xs ys : List ℕ) → same xs ys ≡ true → xs ≡ ys
same_sound [] [] e = refl
same_sound [] (y ∷ ys) e = cc
same_sound (x ∷ xs) [] e = cc
same_sound (x ∷ xs) (y ∷ ys) e = elim (Bool-cases (x == y)) [
  | inl h ↦ let tail = same_sound xs ys (rw h at e) in let head = (==_iff x y).0 h in cc
  | inr h ↦ absurd (wrong (rw h at e))
]
  where
    wrong : ¬ (false ≡ true)
    wrong e = cc

differ : (xs ys : List ℕ) → ys ≢ xs → same xs ys ≡ false
differ xs ys ne = elim (Bool-cases (same xs ys)) [
  | inl e ↦ absurd (ne (sym (same_sound xs ys e)))
  | inr e ↦ e
]

rival : (name cmd other : List ℕ) → same name cmd ≡ true → other ≢ cmd → same name other ≡ false
rival name cmd other e ne = differ name other (λ f. ne (f ∙ same_sound name cmd e))

apart : (r : Reply) (what : List ℕ) → ¬ (returns r ≡ throws what)
apart r what e = cc

module _ (Json : Type 0) (parse : List ℕ → Outcome Json) (value_cmd : Json → Outcome (List ℕ)) where
  find-register_command :
      (hs : Handlers Json parse value_cmd) (cmd : List ℕ) (h : Handler Json parse value_cmd)
      → find Json parse value_cmd (register_command Json parse value_cmd hs cmd h) cmd ≡ some h
  unfolding find register_command
  find-register_command [] cmd h = rw (same_refl cmd) refl
  find-register_command ((name, old) ∷ rest) cmd h = elim (Bool-cases (same name cmd)) [
    | inl e ↦ rw e (rw e refl)
    | inr e ↦ rw e (rw e (find-register_command rest cmd h))
  ]

  find-register_other :
      (hs : Handlers Json parse value_cmd) (cmd other : List ℕ) (h : Handler Json parse value_cmd)
      → other ≢ cmd
      → find Json parse value_cmd (register_command Json parse value_cmd hs cmd h) other
        ≡ find Json parse value_cmd hs other
  unfolding find register_command
  find-register_other [] cmd other h ne = rw (differ cmd other ne) refl
  find-register_other ((name, old) ∷ rest) cmd other h ne = elim (Bool-cases (same name cmd)) [
    | inl e ↦ rw (e, rival name cmd other e ne) refl
    | inr e ↦ elim (Bool-cases (same name other)) [
      | inl f ↦ rw (e, f) refl
      | inr f ↦ rw (e, f) (find-register_other rest cmd other h ne)
    ]
  ]

  dispatched :
      (hs : Handlers Json parse value_cmd) (raw : List ℕ) (msg : Json) (c : List ℕ)
      → parse raw ≡ returns msg
      → value_cmd msg ≡ returns c
      → dispatch Json parse value_cmd hs raw ≡ returns (look_up Json parse value_cmd hs msg c)
  unfolding dispatch
  dispatched hs raw msg c p v =
      ap (parsed Json parse value_cmd hs) p ∙ ap (named Json parse value_cmd hs msg) v

  look_up-full :
      (hs : Handlers Json parse value_cmd) (msg : Json) (c : List ℕ)
      → c ≢ []
      → look_up Json parse value_cmd hs msg c
        ≡ call Json parse value_cmd msg c (find Json parse value_cmd hs c)
  look_up-full hs msg [] ne = absurd (ne refl)
  look_up-full hs msg (x ∷ xs) ne = refl

  look_up-other :
      (hs : Handlers Json parse value_cmd) (msg : Json) (cmd : List ℕ)
      (h : Handler Json parse value_cmd) (c : List ℕ)
      → c ≢ cmd
      → look_up Json parse value_cmd (register_command Json parse value_cmd hs cmd h) msg c
        ≡ look_up Json parse value_cmd hs msg c
  look_up-other hs msg cmd h [] ne = refl
  look_up-other hs msg cmd h (x ∷ xs) ne =
      ap (call Json parse value_cmd msg (x ∷ xs)) (find-register_other hs cmd (x ∷ xs) h ne)

  -- After a command is registered, a message that parses and names it gets the answer of its
  -- handler, with an exception of the handler turned into an error reply; a message that names
  -- another command gets the answer that it got before.
  pub dispatch-register_command :
      (hs : Handlers Json parse value_cmd) (cmd : List ℕ) (h : Handler Json parse value_cmd)
      (raw : List ℕ) (msg : Json) (named_cmd : List ℕ)
      → parse raw ≡ returns msg
      → value_cmd msg ≡ returns named_cmd
      → cmd ≢ []
      → let after = register_command Json parse value_cmd hs cmd h in
        (named_cmd ≡ cmd
          → dispatch Json parse value_cmd after raw ≡ returns (answer Json parse value_cmd (h msg)))
        × (named_cmd ≢ cmd
            → dispatch Json parse value_cmd after raw ≡ dispatch Json parse value_cmd hs raw)
  dispatch-register_command hs cmd h raw msg c p v full = (
    (λ e.
        dispatched after raw msg c p v
        ∙ ap returns (look_up-full after msg c (λ none_at. full (sym e ∙ none_at)))
        ∙ ap (λ x. returns (call Json parse value_cmd msg c x))
            (ap (find Json parse value_cmd after) e ∙ find-register_command hs cmd h)),
    λ ne.
        dispatched after raw msg c p v
        ∙ ap returns (look_up-other hs msg cmd h c ne)
        ∙ sym (dispatched hs raw msg c p v),
  )
    where
      after : Handlers Json parse value_cmd
      after = register_command Json parse value_cmd hs cmd h

  thrown_named :
      (hs : Handlers Json parse value_cmd) (msg : Json) (o : Outcome (List ℕ)) (what : List ℕ)
      → named Json parse value_cmd hs msg o ≡ throws what
      → o ≡ throws what
  thrown_named hs msg (returns c) what e =
      absurd (apart (look_up Json parse value_cmd hs msg c) what e)
  thrown_named hs msg (throws w) what e = cc

  thrown_parsed :
      (hs : Handlers Json parse value_cmd) (o : Outcome Json) (what : List ℕ)
      → parsed Json parse value_cmd hs o ≡ throws what
      → (msg : Json) × ((o ≡ returns msg) × (value_cmd msg ≡ throws what))
  thrown_parsed hs (returns msg) what e = (msg, (refl, thrown_named hs msg (value_cmd msg) what e))
  thrown_parsed hs (throws w) what e = absurd (apart invalid_json what e)

  -- `dispatch` throws an exception exactly when the message parses and `msg.value` throws it; so for
  -- every other message, and for every exception of a handler, it returns a reply.
  pub dispatch_throws :
      (hs : Handlers Json parse value_cmd) (raw what : List ℕ)
      → (dispatch Json parse value_cmd hs raw ≡ throws what)
        ↔ ((msg : Json) × ((parse raw ≡ returns msg) × (value_cmd msg ≡ throws what)))
  unfolding dispatch
  dispatch_throws hs raw what = (
    (λ e. thrown_parsed hs (parse raw) what e),
    λ (msg, (p, v)).
        ap (parsed Json parse value_cmd hs) p ∙ ap (named Json parse value_cmd hs msg) v,
  )

-- ===== src/Uart/Output.antt =====
-- kernel/uart.c: what is sent, and that the wait ends.
use mathlib.Core.Path.{subst}
use mathlib.Core.List.{append_assoc, append-nil}
use native.Mathlib.Decide.{ℕ_discrete}
use rt.Prelude.{
  ℕ, zero, suc, ◌+◌, ◌-◌, ◌%◌, ◌<◌, ◌≤◌, ◌≡◌, ◌≢◌, refl, sym, ap, ◌∙◌, ◌⊎◌, inl, inr, true, false,
  List, [], ◌∷◌, ◌++◌, map, ◌==◌, arith, Bool-cases,
}
use rt.Prelude.Run.{Outcome, Returns, returns, bind, mono, and_then, ◌>>◌}
use rt.Uart.{
  Serial, com1, outb, in_status, is_empty, poll, uartputc, put_text, greeting, set_line, detect,
  uartearlyinit,
}

-- A wait of at most `left` reads: either the last one found the port empty, or all of them did not.
pub record HasPolled (status : ℕ → ℕ) (left : ℕ) (s s' : Serial) : Type 0 where
  pub uart_eq : s'.uart ≡ s.uart
  pub outs_eq : s'.outs ≡ s.outs
  pub reads_from : s.reads ≤ s'.reads
  pub reads_to : s'.reads ≤ s.reads + left
  pub waited : (n : ℕ) → s.reads ≤ n → n + 1 < s'.reads → is_empty (status n % 256) ≡ false
  pub ended :
      ((s.reads < s'.reads) × (is_empty (status (s'.reads - 1) % 256) ≡ true))
      ⊎ ((s'.reads ≡ s.reads + left)
          × ((n : ℕ) → s.reads ≤ n → n < s'.reads → is_empty (status n % 256) ≡ false))

module _ (status : ℕ → ℕ) where
  poll-ready :
      (left : ℕ) (s : Serial)
      → is_empty (status s.reads % 256) ≡ true
      → poll status (suc left) s ≡ Outcome.done tt (record s { reads = s.reads + 1 })
  unfolding poll in_status
  poll-ready left s e = rw (e) refl

  poll-again :
      (left : ℕ) (s : Serial)
      → is_empty (status s.reads % 256) ≡ false
      → poll status (suc left) s ≡ poll status left (record s { reads = s.reads + 1 })
  unfolding poll in_status
  poll-again left s e = rw (e) refl

  -- The status at one more read was not empty.
  earlier :
      (a : ℕ) {P : ℕ → Type 0}
      → is_empty (status a % 256) ≡ false
      → ((n : ℕ) → a + 1 ≤ n → P n → is_empty (status n % 256) ≡ false)
      → (n : ℕ) → a ≤ n
      → P n
      → is_empty (status n % 256) ≡ false
  earlier a e h n p q = elim (ℕ_discrete a n) [
    | yes u ↦ ap (λ k. is_empty (status k % 256)) (sym u) ∙ e
    | no u ↦ h n (omega arith) q
  ]

  one_more :
      (left : ℕ) (s s' : Serial)
      → is_empty (status s.reads % 256) ≡ false
      → HasPolled status left (record s { reads = s.reads + 1 }) s'
      → HasPolled status (suc left) s s'
  one_more left s s' e r = record {
    uart_eq = r.uart_eq;
    outs_eq = r.outs_eq;
    reads_from = omega (arith, r.reads_from);
    reads_to = omega (arith, r.reads_to);
    waited = earlier s.reads e r.waited;
    ended = elim r.ended [
      | inl h ↦ inl (omega (arith, h.0), h.1)
      | inr h ↦ inr (omega (arith, h.0), earlier s.reads e h.1)
    ];
  }

  poll-HasPolled :
      (left : ℕ) (s : Serial) → Returns (λ _ s'. HasPolled status left s s') (poll status left s)
  unfolding poll
  poll-HasPolled zero s = returns record {
    uart_eq = refl;
    outs_eq = refl;
    reads_from = omega arith;
    reads_to = omega arith;
    waited = λ n p q. absurd (omega arith);
    ended = inr (omega arith, λ n p q. absurd (omega arith));
  }
  poll-HasPolled (suc left) s = elim (Bool-cases (is_empty (status s.reads % 256))) [
    | inl e ↦ subst (Returns _) (sym (poll-ready left s e)) (
        returns record {
          uart_eq = refl;
          outs_eq = refl;
          reads_from = omega arith;
          reads_to = omega arith;
          waited = λ n p q. absurd (omega arith);
          ended = inl (omega arith, ap (λ n. is_empty (status n % 256)) (omega arith) ∙ e);
        })
    | inr e ↦ subst (Returns _) (sym (poll-again left s e)) (
        mono (poll-HasPolled left (record s { reads = s.reads + 1 }))
          λ _ s' r. one_more left s s' e r)
  ]

  uartputc-eq :
      (c : ℕ) (s : Serial)
      → s.uart ≢ 0
      → uartputc status c s ≡ (poll status 128 >> outb (com1 + 0) c) s
  unfolding uartputc
  uartputc-eq c s h = let a : (s.uart == 0) ≡ false = ground arith in rw (a) refl

  -- Whatever the port answers, with a port found `uartputc` ends and writes one byte, `c` modulo
  -- 256, to the data register, after at most 128 reads of the status; it stopped reading at the
  -- first status that takes a byte, or after 128 that do not.
  pub uartputc-HasSent :
      (c : ℕ) (s : Serial)
      → s.uart ≢ 0
      → Returns
          (λ _ s'.
            (s'.outs ≡ s.outs ++ (com1, c % 256) ∷ [])
            × HasPolled status 128 s (record s' { outs = s.outs }))
          (uartputc status c s)
  unfolding outb
  uartputc-HasSent c s h = subst (Returns _) (sym (uartputc-eq c s h)) (
      bind (poll-HasPolled 128 s) λ _ s1 r. returns (
        ap (λ o. o ++ (com1, c % 256) ∷ []) r.outs_eq,
        record {
          uart_eq = r.uart_eq;
          outs_eq = refl;
          reads_from = r.reads_from;
          reads_to = r.reads_to;
          waited = r.waited;
          ended = r.ended;
        },
      ))

  -- The bytes that a text sends.
  abbrev pub sent : List ℕ → List (ℕ × ℕ)
  sent = map (λ c. (com1, c % 256))

  pub put_text_lem :
      (cs : List ℕ) (s : Serial)
      → s.uart ≢ 0
      → Returns (λ _ s'. (s'.outs ≡ s.outs ++ sent cs) × (s'.uart ≡ s.uart)) (put_text status cs s)
  unfolding put_text
  put_text_lem [] s h = returns (sym (append-nil s.outs), refl)
  put_text_lem (c ∷ cs) s h = bind (uartputc-HasSent c s h) λ _ s1 r.
      mono (put_text_lem cs s1 (λ z. h (sym r.1.uart_eq ∙ z))) λ _ s2 t. (
        t.0 ∙ ap (λ o. o ++ sent cs) r.0 ∙ append_assoc s.outs ((com1, c % 256) ∷ []) (sent cs),
        t.1 ∙ r.1.uart_eq,
      )

-- The port's registers while it is set up: no FIFO, divisor 12 between the two line controls, eight
-- data bits, no modem lines, the receive interrupt.
abbrev pub line_writes : List (ℕ × ℕ)
line_writes =
    (0x3FA, 0)
    ∷ (0x3FB, 0x80)
    ∷ (0x3F8, 12)
    ∷ (0x3F9, 0)
    ∷ (0x3FB, 3)
    ∷ (0x3FC, 0)
    ∷ (0x3F9, 1)
    ∷ []

-- The two ends of the set-up: no port answers, or the greeting is sent.
pub record IsDetected (status : ℕ → ℕ) (s s' : Serial) : Type 0 where
  pub absent : status s.reads % 256 ≡ 0xFF → (s'.uart ≡ s.uart) × (s'.outs ≡ s.outs ++ line_writes)
  pub present :
      status s.reads % 256 ≢ 0xFF
      → (s'.uart ≡ 1) × (s'.outs ≡ s.outs ++ (line_writes ++ sent status greeting))

set_line_lem :
    (s : Serial) → set_line s ≡ Outcome.done tt (record s { outs = s.outs ++ line_writes })
unfolding set_line outb
set_line_lem s = ap (λ o. Outcome.done tt (record s { outs = o })) (simp append_assoc refl)

module _ (status : ℕ → ℕ) where
  abbrev set : Serial → Serial
  set s = record s { outs = s.outs ++ line_writes }

  detect_absent :
      (s : Serial)
      → (status s.reads % 256 == 0xFF) ≡ true
      → detect status s ≡ Outcome.done tt (record s { reads = s.reads + 1 })
  unfolding detect in_status
  detect_absent s e = rw (e) refl

  detect_present :
      (s : Serial)
      → (status s.reads % 256 == 0xFF) ≡ false
      → detect status s ≡ put_text status greeting (record s { uart = 1; reads = s.reads + 1 })
  unfolding detect in_status
  detect_present s e = rw (e) refl

  detect_after : (s : Serial) → uartearlyinit status s ≡ detect status (set s)
  unfolding uartearlyinit
  detect_after s = ap (λ o. and_then o (λ _. detect status)) (set_line_lem s)

  -- `uartearlyinit` ends with the registers of the line set up. If the status then reads as 0xFF,
  -- nothing else happens and no port is recorded; otherwise the port is recorded and the greeting
  -- follows, byte for byte.
  pub uartearlyinit-IsDetected :
      (s : Serial) → Returns (λ _ s'. IsDetected status s s') (uartearlyinit status s)
  uartearlyinit-IsDetected s = elim (Bool-cases (status s.reads % 256 == 0xFF)) [
    | inl e ↦
        subst (Returns _) (sym (detect_after s ∙ detect_absent (set s) e))
          (returns record { absent = λ _. (refl, refl); present = λ n. absurd (ground arith) })
    | inr e ↦ subst (Returns _) (sym (detect_after s ∙ detect_present (set s) e)) (
        mono
          (put_text_lem status greeting
            (record { uart = 1; outs = s.outs ++ line_writes; reads = s.reads + 1 })
            (λ z. omega arith))
          λ _ s' t. record {
            absent = λ y. absurd (ground arith);
            present = λ _. (t.1, t.0 ∙ append_assoc s.outs line_writes (sent status greeting));
          })
  ]

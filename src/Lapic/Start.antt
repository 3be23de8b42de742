-- ===== src/Lapic/Start.antt =====
-- kernel/lapic.c: what `lapicstartap` sends to the other processor, and where it tells it to start.
use rt.Prelude.{
  ℕ, ◌+◌, ◌*◌, ◌/◌, ◌%◌, ◌^◌, ◌<◌, ◌≡◌, refl, ◌∙◌, Bool, true, false, ◌∷◌, arith, bit_or, ◌==◌,
}
use rt.Prelude.Run.{Returns, returns}
use rt.Bits.{bit_or_fields}
use rt.Layout.{p2v}
use rt.Memory.{Mem, load, store}
use rt.Memory.Laws.{SameBut, store_frame, load_ext, load-store_self}
use rt.Lapic.{Local, lapicw, happens, send_startup, lapicstartap, startup}
use rt.Lapic.Registers.{Ipi, ipi, ipis, cmos}

-- An interrupt for one processor: INIT has mode 5 and STARTUP mode 6.
abbrev pub init_to : (dest : ℕ) → Bool → Ipi
init_to dest up = record { mode = 5; vector = 0; asserted = up; everyone = false; dest = dest }

abbrev pub startup_at : (dest page : ℕ) → Ipi
startup_at dest page = record {
  mode = 6;
  vector = page;
  asserted = false;
  everyone = false;
  dest = dest;
}

-- INIT is raised and lowered and two STARTUPs name the page of the code (in `ipis` the last one comes
-- first), the shutdown code asks for a warm reset, and the reset vector is the far pointer to `addr`.
pub record IsStarted (apicid addr : ℕ) (s s' : Local) : Type 0 where
  pub sent :
      ipis s'.trace
      ≡ startup_at apicid (addr / 4096)
        ∷ startup_at apicid (addr / 4096)
        ∷ init_to apicid false
        ∷ init_to apicid true
        ∷ ipis s.trace
  pub shutdown_code : cmos s'.trace 0xF ≡ 0xA
  pub vector : 16 * load 2 s'.mem (p2v 0x469) + load 2 s'.mem (p2v 0x467) ≡ addr
  pub rest : SameBut (p2v 0x467) 4 s.mem s'.mem

module _ (apicid addr : ℕ) (h : apicid < 256) (k : addr < 2 ^ 20) where
  dest_eq : apicid * 2 ^ 24 % 2 ^ 32 / 2 ^ 24 ≡ apicid
  dest_eq = ground arith

  startup_eq : bit_or startup (addr / 2 ^ 12) % 2 ^ 32 ≡ 0x600 + addr / 4096
  startup_eq = ground (arith, bit_or_fields 8 6 (addr / 4096) (omega arith))

  startup_lem :
      ipi (apicid * 2 ^ 24 % 2 ^ 32) (bit_or startup (addr / 2 ^ 12) % 2 ^ 32)
      ≡ startup_at apicid (addr / 4096)
  startup_lem =
      let v = addr / 4096 in
      let a : (0x600 + v) / 2 ^ 8 % 8 ≡ 6 = omega arith in
      let b : (0x600 + v) % 2 ^ 8 ≡ v = omega arith in
      let c : ((0x600 + v) / 2 ^ 14 % 2 == 1) ≡ false = ground arith in
      let d : ((0x600 + v) / 2 ^ 18 % 4 == 2) ≡ false = ground arith in
      rw (dest_eq, startup_eq, a, b, c, d) refl

  -- The segment is stored behind the offset, which is 0.
  vector_lem :
      (m : Mem)
      → addr % 16 ≡ 0
      → 16 * load 2 (store 2 (store 2 m (p2v 0x467) 0) (p2v 0x469) (addr / 2 ^ 4)) (p2v 0x469)
          + load 2 (store 2 (store 2 m (p2v 0x467) 0) (p2v 0x469) (addr / 2 ^ 4)) (p2v 0x467)
        ≡ addr
  vector_lem m l =
      let m1 = store 2 m (p2v 0x467) 0 in
      omega (
        arith,
        load-store_self 2 m1 (p2v 0x469) (addr / 2 ^ 4) (omega arith),
        load_ext 2 (store 2 m1 (p2v 0x469) (addr / 2 ^ 4)) m1 (p2v 0x467)
            (λ b p q. store_frame 2 m1 (p2v 0x469) (addr / 2 ^ 4) b (omega arith)),
        load-store_self 2 m (p2v 0x467) 0 (omega arith),
      )

  -- For a byte `apicid` and an address below 1M at a multiple of 16, `lapicstartap` ends having
  -- sent to that processor alone INIT raised, INIT lowered, and twice STARTUP with the number of
  -- the address's page; the CMOS shutdown code is 0xA, the warm reset vector is the far pointer
  -- to the address, and no other memory has changed.
  pub lapicstartap-IsStarted :
      (s : Local)
      → addr % 16 ≡ 0
      → Returns (λ _ s'. IsStarted apicid addr s s') (lapicstartap apicid addr s)
  unfolding lapicstartap happens lapicw send_startup
  lapicstartap-IsStarted s l = returns record {
    sent = rw (startup_lem, dest_eq) refl;
    shutdown_code = refl;
    vector = vector_lem s.mem l;
    rest = λ b o.
        store_frame 2 (store 2 s.mem (p2v 0x467) 0) (p2v 0x467 + 2) (addr / 2 ^ 4) b (omega arith)
        ∙ store_frame 2 s.mem (p2v 0x467) 0 b (omega arith);
  }

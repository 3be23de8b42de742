-- ===== src/Console/Played.antt =====
-- kernel/console.c with its devices: more characters handed over are played after the others.
use rt.Prelude.{ℕ, ◌≡◌, refl, ◌∙◌, ap, fun_ext, Bool, List, [], ◌∷◌, ◌++◌}
use rt.Prelude.Run.{Cmd, Outcome, done, panic, out_of_fuel, undefined, and_then, ◌>>◌}
use rt.Uart.{Serial, uartputc, put_text}
use rt.Cga.{Screen, cgaputc}
use rt.Console.{Console}
use rt.Console.Devices.{Devices, with_serial, on_serial, on_screen, cga_text, play}

-- Two serial operations, the screen being changed between them, before them or behind them.
with_serial-and_then :
    (d : Devices) (r : Outcome Serial (Unit {0})) (k : Cmd Serial (Unit {0}))
    (f g : Screen → Screen)
    → and_then (with_serial d (and_then r (λ _. k))) (λ _. on_screen (λ s. g (f s)))
      ≡ and_then (and_then (with_serial d r) (λ _. on_screen f)) (λ _. on_serial k >> on_screen g)
with_serial-and_then d (done a s) k f g = both (k s)
  where
    both :
        (q : Outcome Serial (Unit {0}))
        → and_then (with_serial d q) (λ _. on_screen (λ s. g (f s)))
          ≡ and_then (with_serial (record { serial = s; screen = f d.screen }) q) (λ _. on_screen g)
    both (done b t) = refl
    both panic = refl
    both out_of_fuel = refl
    both undefined = refl
with_serial-and_then d panic k f g = refl
with_serial-and_then d out_of_fuel k f g = refl
with_serial-and_then d undefined k f g = refl

and_then-and_then :
    {S : Type 0} (r : Outcome S (Unit {0})) (k k' l : Unit {0} → Cmd S (Unit {0}))
    → ((a : Unit {0}) (t : S) → k a t ≡ and_then (k' a t) l)
    → and_then r k ≡ and_then (and_then r k') l
and_then-and_then (done a t) k k' l h = h a t
and_then-and_then panic k k' l h = refl
and_then-and_then out_of_fuel k k' l h = refl
and_then-and_then undefined k k' l h = refl

module _ (status : ℕ → ℕ) where
  put_text-append :
      (xs ys : List ℕ) (s : Serial)
      → put_text status (xs ++ ys) s ≡ and_then (put_text status xs s) (λ _. put_text status ys)
  unfolding put_text
  put_text-append [] ys s = refl
  put_text-append (x ∷ xs) ys s =
      and_then-and_then (uartputc status x s) _ _ _ (λ _ t. put_text-append xs ys t)

  cga_text-append :
      (xs ys : List ℕ) (s : Screen) → cga_text (xs ++ ys) s ≡ cga_text ys (cga_text xs s)
  unfolding cga_text
  cga_text-append [] ys s = refl
  cga_text-append (x ∷ xs) ys s = cga_text-append xs ys (cgaputc x s)

  -- More characters are played after the others.
  pub play-append :
      (out : Console) (us cs : List ℕ) (p : Bool) (d : Devices)
      → play status (record { uart = out.uart ++ us; cga = out.cga ++ cs; panicked = p }) d
        ≡ and_then
            (play status out d)
            (λ _. on_serial (put_text status us) >> on_screen (cga_text cs))
  unfolding play
  play-append out us cs p d =
      ap (λ r. and_then (with_serial d r) (λ _. on_screen (cga_text (out.cga ++ cs))))
        (put_text-append out.uart us d.serial)
      ∙ ap
          (λ f.
            and_then
              (with_serial d
                (and_then (put_text status out.uart d.serial) (λ _. put_text status us)))
              (λ _. on_screen f))
          (fun_ext (λ s. cga_text-append out.cga cs s))
      ∙ with_serial-and_then d (put_text status out.uart d.serial) (put_text status us)
          (cga_text out.cga) (cga_text cs)

-- ===== src/Kalloc/Samples.antt =====
-- A memory with three free frames, for the tests: 8192, 12288 and 16384.
use rt.Prelude.{ℕ, ◌%◌, ◌≤◌, ◌<◌, ◌≡◌, refl, List, [], ◌∷◌, arith, ◌==◌, if◌then◌else◌}
use rt.Memory.{Mem, load}
use rt.Memory.Laws.{IsBytes}
use rt.Kalloc.{Kernel}
use rt.Kalloc.Chain.{IsFrame, IsFree}

-- The first words of the first two frames.
abbrev pub linked : Mem
linked a = if a == 8193 then 48 else if a == 12289 then 64 else 0

linked-IsBytes : IsBytes linked
linked-IsBytes a = ground arith

abbrev pub three_free : Kernel
three_free = record { mem = linked; nfreepages = 3; freelist = 8192 }

abbrev pub three_frames : List ℕ
three_frames = 8192 ∷ 12288 ∷ 16384 ∷ []

sample_frame : (f : ℕ) → f % 4096 ≡ 0 → 4096 ≤ f → f < 65536 → IsFrame f
sample_frame f al low high = record { aligned = al; not_null = omega arith; inside = omega arith }

pub frame_4096 : IsFrame 4096
frame_4096 = sample_frame 4096 refl (omega arith) (omega arith)

pub three_free-IsFree : IsFree three_free three_frames
unfolding load
three_free-IsFree = record {
  frames = (
    sample_frame 8192 refl (omega arith) (omega arith),
    (omega arith, (omega arith, tt)),
    (
      sample_frame 12288 refl (omega arith) (omega arith),
      (omega arith, tt),
      (sample_frame 16384 refl (omega arith) (omega arith), tt, tt),
    ),
  );
  chain = (refl, (refl, (refl, refl)));
  counted = refl;
  bytes = linked-IsBytes;
}

-- No frame at all.
abbrev pub none_free : Kernel
none_free = record { mem = λ a. 0; nfreepages = 0; freelist = 0 }

pub none_free-IsFree : IsFree none_free []
none_free-IsFree = record { frames = tt; chain = refl; counted = refl; bytes = λ a. omega arith }

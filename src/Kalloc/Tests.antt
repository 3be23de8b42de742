-- ===== src/Kalloc/Tests.antt =====
-- The theorems on the page allocator with three free frames.
use rt.Prelude.{◌+◌, ◌-◌, ◌%◌, ◌^◌, ◌≡◌, refl, ◌↔◌, List, [], ◌∷◌, arith, length}
use rt.Prelude.Run.{done, panic}
use rt.Memory.{load64}
use rt.Str.{memset}
use rt.Kalloc.{Kernel, kalloc}
use rt.Kalloc.History.{
  World, Reach, here, next, allocs, Inv, IsFresh, Reach-IsFresh, Reach-panic_iff,
}
use rt.Kalloc.Refine.{Call, allocate, free, run, run_list, Refines, run-Refines}
use rt.Kalloc.Samples.{linked, three_free, three_frames, three_free-IsFree}

-- Nobody holds a frame; then somebody holds the first.
abbrev start : World
start = record { kernel = three_free; held = [] }

start-Inv : Inv 3 start
start-Inv = record {
  free = three_frames;
  is_free = three_free-IsFree;
  frames = tt;
  apart = (tt, (tt, (tt, tt)));
  sum = refl;
}

abbrev two_free : Kernel
two_free = record {
  mem = (memset linked 8192 0 4096).1;
  nfreepages = (3 + 2 ^ 32 - 1) % 2 ^ 32;
  freelist = load64 linked 8192;
}

first_kalloc : kalloc three_free ≡ done 8192 two_free
unfolding kalloc
first_kalloc = refl

abbrev one_held : World
one_held = record { kernel = two_free; held = 8192 ∷ [] }

one_held-Reach : Reach start one_held
one_held-Reach = next here (allocs start 8192 two_free first_kalloc)

Reach-IsFresh_example : IsFresh start 8192 two_free
Reach-IsFresh_example = Reach-IsFresh (omega arith) start-Inv here first_kalloc

Reach-panic_iff_example :
    (two_free.nfreepages + length one_held.held ≡ 3)
    × ((kalloc two_free ≡ panic) ↔ (length one_held.held ≡ 3))
Reach-panic_iff_example = Reach-panic_iff (omega arith) start-Inv one_held-Reach

-- Two frames are taken, the first is put back and taken again.
abbrev calls : List Call
calls = allocate ∷ allocate ∷ free 8192 ∷ allocate ∷ []

run-Refines_example : Refines (run calls three_free) (run_list calls three_frames)
run-Refines_example =
    run-Refines calls three_frames three_free three_free-IsFree
      ((three_free-IsFree).frames.0, ((λ e. omega arith), tt), tt) (omega arith)

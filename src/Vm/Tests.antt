-- ===== src/Vm/Tests.antt =====
-- Runs of the model of xv6-public/vm.c, and its theorems at them.
use ele3021_spring.Vm.Mapping.{Maps, mappages-Maps}
use ele3021_spring.Vm.Walk.{IsPgdir, entry}
use ele3021_spring.Kalloc.{bad_page, kalloc, lock_if, unlock_if}
use ele3021_spring.Vm.{Vm, mappages}
use ele3021_spring.Common.{
  ℕ, List, Outcome, false, ◌∷◌, Option, if◌then◌else◌, [], arith, done, ◌==◌, refl, some, ◌≡◌, none,
}

-- A directory at the first page after the kernel, and two free pages.
abbrev kernel_end : ℕ
kernel_end = 0x80101000

abbrev small_memory : Vm
small_memory = record {
  kmem = record {
    use_lock = false;
    locked = false;
    freelist = 0x80102000;
    next = λ p. if p == 0x80102000 then 0x80103000 else 0;
  };
  word_at = λ _. 0;
  moves = [];
}

abbrev two_pages : List ℕ
two_pages = 0x80102000 ∷ 0x80103000 ∷ []

small_memory-IsPgdir : IsPgdir kernel_end kernel_end small_memory two_pages
unfolding bad_page
small_memory-IsPgdir = record {
  free_list = record {
    chain = (refl, omega arith, (refl, omega arith, refl));
    distinct = omega arith;
    good = (refl, (refl, tt));
    unlocked = refl;
  };
  small = omega arith;
  aligned = refl;
  used = omega arith;
  table_used = λ i _ p. cc;
  tables_apart = λ i j _ _ _ p _. cc;
}

-- Two pages across a boundary of tables.
mappages-Maps_example :
    Maps kernel_end kernel_end 0x3FF000 0x400000 0x200000 6 small_memory
      (mappages kernel_end 0x3FF010 0x1100 0x200000 6 small_memory)
mappages-Maps_example =
    mappages-Maps kernel_end kernel_end 0x3FF010 0x1100 0x200000 6 small_memory two_pages
      small_memory-IsPgdir (omega arith) (omega arith) (omega arith) (λ _ _ _. refl)

-- The word of an entry, its flags and its page.
mapped_word : Outcome (ℕ × Vm) → ℕ → Option ℕ
mapped_word (done r) b = some (entry kernel_end b r.1)
mapped_word o b = none

first_page :
    mapped_word (mappages kernel_end 0x3FF010 0x1100 0x200000 6 small_memory) 0x3FF800
    ≡ some 0x200007
unfolding mapped_word mappages kalloc lock_if unlock_if
first_page = refl

second_page :
    mapped_word (mappages kernel_end 0x3FF010 0x1100 0x200000 6 small_memory) 0x400000
    ≡ some 0x201007
unfolding mapped_word mappages kalloc lock_if unlock_if
second_page = refl

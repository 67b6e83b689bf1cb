-- ===== src/Pipe/Tests.antt =====
-- A pipe whose counters are about to wrap.
use ele3021_spring.Common.{true, arith, false, ◌∷◌, ◌≡◌, [], length, refl}
use ele3021_spring.Pipe.{Pipe, returned, pipewrite, piperead}
use ele3021_spring.Pipe.Window.{IsValid, contents}
use ele3021_spring.Pipe.Fifo.{Wrote, pipewrite-Wrote, piperead-Read}

abbrev wrapping : Pipe
wrapping = record {
  bytes = λ i. 65;
  nread = 0xffffffff;
  nwrite = 0;
  readopen = true;
  writeopen = true;
}

wrapping-IsValid : IsValid wrapping
wrapping-IsValid = omega arith

pipewrite-Wrote_example :
    Wrote false 0 (66 ∷ 67 ∷ []) wrapping (pipewrite false (66 ∷ 67 ∷ []) wrapping)
pipewrite-Wrote_example = pipewrite-Wrote false (66 ∷ 67 ∷ []) wrapping wrapping-IsValid

written : contents (pipewrite false (66 ∷ 67 ∷ []) wrapping).1 ≡ 65 ∷ 66 ∷ 67 ∷ []
unfolding pipewrite
written = refl

piperead-Read_example :
    let r = piperead false 5 wrapping in
    (r.0 ≡ returned (length r.1)) × (r.1 ≡ 65 ∷ []) × (contents r.2 ≡ []) × IsValid r.2
piperead-Read_example = piperead-Read false 5 wrapping wrapping-IsValid refl

-- ===== src/GZip/Tests.antt =====
-- A stream that puts out what it takes in.
use ladder.Prelude.{ℕ, refl, some, [], ◌∷◌, take, drop, arith}
use ladder.GZip.{Zlib, deflate_file}
use ladder.GZip.Stream.{Documented, MadeOf, deflate_file-MadeOf}

-- The stream holds nothing back.
abbrev storing : Zlib ℕ
storing = record { init = some 0; deflate = λ finish n i s. (take n i, drop n i, 0) }

abbrev storing-Documented : Documented storing
storing-Documented = record {
  due = λ finish i s. i;
  after = λ finish i s. 0;
  puts_out = λ finish n i s. refl;
  due_left = λ finish n i s h. refl;
  after_left = λ finish n i s h. refl;
  is_through = λ finish n i s h. refl;
}

deflate_file-MadeOf_example :
    MadeOf storing storing-Documented 131073
      (λ finish i s h. omega arith)
      (7 ∷ 8 ∷ [])
      0
      (deflate_file storing 131073 (some (7 ∷ 8 ∷ [])))
deflate_file-MadeOf_example =
    deflate_file-MadeOf storing storing-Documented 131073 (λ finish i s h. omega arith) (7 ∷ 8 ∷ [])
      0 refl

-- ===== src/Database/Sample.antt =====
-- A client that meets the laws of a table.
use xitter.Prelude.{
  ◌≡◌, refl, Bool, ◌&&◌, none, some, List, [], ◌∷◌, take, keep, reject, count, find?, any,
  map_where, if◌then◌else◌, arith,
}
use xitter.Database.{Client, insert_all, sort}

pub count-keep {ℓ} :
    {Row : Type ℓ} (p q : Row → Bool) (rows : List Row)
    → count q (keep p rows) ≡ count (λ r. p r && q r) rows
unfolding count keep
count-keep p q [] = refl
count-keep p q (x ∷ xs) = ground (arith, count-keep p q xs)

abbrev pub sample_client : (Row : Type 0) → Client Row
sample_client Row = record {
  find_first = find?;
  find_many = keep;
  find_page = λ p before n rows. take n (sort before (keep p rows));
  count_rows = count;
  create = λ conflict r rows. if any (conflict r) rows then none else some (r ∷ rows);
  create_many = insert_all;
  update = λ p f rows. if any p rows then some (map_where p f rows) else none;
  delete_many = λ p rows. (count p rows, reject p rows);
  find_first_lem = λ p rows. refl;
  find_many_lem = count-keep;
  find_page_lem = λ p before n rows. refl;
  count_rows_lem = λ p rows. refl;
  create_lem = λ conflict r rows. refl;
  create_many_lem = λ conflict rs rows. refl;
  update_lem = λ p f rows. refl;
  delete_many_lem = λ p rows. refl;
}

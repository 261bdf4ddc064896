-- ===== src/Sled/Model.antt =====
-- An instance of the `sled` interface: trees by name, each a list of rows. It shows that the
-- documented behaviour can be met, and the tests run on it.
use infovulcan.Common.{
  ◌≡◌, refl, sym, ◌∙◌, Option, none, some, List, [], ◌∷◌, ◌&&◌, arith, inl, inr, Bytes, beq,
  beq_refl, eq_of_beq, ble, starts_with, if◌then◌else◌, Bool-cases, In, filter,
}
use infovulcan.Sled.{Sled, BatchOp, after_batch}
use infovulcan.Sled.Rows.{
  Rows, find, ins, del, sort, find-ins, find-del, find-sort, sort-IsSorted, find_of_In, In-of_find,
}

abbrev pub Trees : Type 0
Trees = List (Bytes × Rows)

pub rows : Bytes → Trees → Rows
rows t [] = []
rows t ((s, r) ∷ d) = if beq s t then r else rows t d

pub modify : Bytes → (Rows → Rows) → Trees → Trees
modify t f [] = (t, f []) ∷ []
modify t f ((s, r) ∷ d) = if beq s t then (s, f r) ∷ d else (s, r) ∷ modify t f d

rows-modify :
    (t t' : Bytes) (f : Rows → Rows) (d : Trees)
    → rows t' (modify t f d) ≡ (if beq t t' then f (rows t d) else rows t' d)
unfolding rows modify
rows-modify t t' f [] = refl
rows-modify t t' f ((s, r) ∷ d) =
    ground (arith, rows-modify t t' f d, eq_of_beq s t, eq_of_beq t t', beq_refl t)

pub names : Trees → List Bytes
names [] = []
names ((s, r) ∷ d) = s ∷ names d

pub names_complete : (d : Trees) (t k v : Bytes) → find k (rows t d) ≡ some v → In t (names d)
unfolding rows names find
names_complete [] t k v h = cc
names_complete ((s, r) ∷ d) t k v h = elim (Bool-cases (beq s t)) [
  | inl e ↦ inl (eq_of_beq s t e)
  | inr f ↦ inr (names_complete d t k v (rw f at h))
]

abbrev pub get : Trees → Bytes → Bytes → Option Bytes
get d t k = find k (rows t d)

pub write : Bytes → Option Bytes → Rows → Rows
write k none r = del k r
write k (some v) r = ins k v r

find-write :
    (k : Bytes) (o : Option Bytes) (k' : Bytes) (r : Rows)
    → find k' (write k o r) ≡ (if beq k k' then o else find k' r)
unfolding write
find-write k none k' r = find-del k k' r
find-write k (some v) k' r = find-ins k v k' r

pub get-modify :
    (d : Trees) (t k : Bytes) (o : Option Bytes) (t' k' : Bytes)
    → get (modify t (write k o) d) t' k' ≡ (if beq t t' && beq k k' then o else get d t' k')
get-modify d t k o t' k' =
    ground (arith, rows-modify t t' (write k o) d, find-write k o k' (rows t d), eq_of_beq t t')

pub batch : List BatchOp → Rows → Rows
batch [] r = r
batch (BatchOp.put k v ∷ b) r = batch b (write k (some v) r)
batch (BatchOp.del k ∷ b) r = batch b (write k none r)

find-batch :
    (b : List BatchOp) (k : Bytes) (r : Rows) → find k (batch b r) ≡ after_batch b k (find k r)
unfolding batch
find-batch [] k r = refl
find-batch (BatchOp.put j v ∷ b) k r =
    rw (find-batch b k (write j (some v) r), find-write j (some v) k r)
find-batch (BatchOp.del j ∷ b) k r = rw (find-batch b k (write j none r), find-write j none k r)

pub get-batch :
    (d : Trees) (t : Bytes) (b : List BatchOp) (t' k' : Bytes)
    → get (modify t (batch b) d) t' k'
      ≡ (if beq t t' then after_batch b k' (get d t' k') else get d t' k')
get-batch d t b t' k' =
    ground (arith, rows-modify t t' (batch b) d, find-batch b k' (rows t d), eq_of_beq t t')

abbrev pub iter : Trees → Bytes → Rows
iter d t = sort (rows t d)

pub iter_sound : (d : Trees) (t k v : Bytes) → In (k, v) (iter d t) → get d t k ≡ some v
iter_sound d t k v m =
    sym (find-sort k (rows t d)) ∙ find_of_In k v (iter d t) (sort-IsSorted (rows t d)) m

pub iter_complete : (d : Trees) (t k v : Bytes) → get d t k ≡ some v → In (k, v) (iter d t)
iter_complete d t k v h = In-of_find k v (iter d t) (find-sort k (rows t d) ∙ h)

abbrev pub update : Trees → Bytes → Bytes → (Option Bytes → Option Bytes) → Trees × Option Bytes
update d t k f = (modify t (write k (f (get d t k))) d, f (get d t k))

pub get-new : (t k : Bytes) → get [] t k ≡ none
unfolding rows find
get-new t k = refl

unfoldable pub sled_model : Sled
unfolding rows modify names write batch
sled_model = record {
  Db = Trees;
  empty = [];
  get = get;
  insert = λ d t k v. modify t (write k (some v)) d;
  remove = λ d t k. modify t (write k none) d;
  apply_batch = λ d t b. modify t (batch b) d;
  update_and_fetch = update;
  iter = iter;
  scan_prefix = λ d t p. filter (λ r. starts_with p r.0) (iter d t);
  range_from = λ d t lo. filter (λ r. ble lo r.0) (iter d t);
  range_to = λ d t hi. filter (λ r. ble r.0 hi) (iter d t);
  tree_names = names;
  get-empty = get-new;
  get-insert = λ d t k v. get-modify d t k (some v);
  get-remove = λ d t k. get-modify d t k none;
  get-apply_batch = get-batch;
  get-update_and_fetch = λ d t k f. get-modify d t k (f (get d t k));
  fetch-update_and_fetch = λ d t k f. refl;
  iter_sound = iter_sound;
  iter_complete = iter_complete;
  iter-IsSorted = λ d t. sort-IsSorted (rows t d);
  scan_prefix_lem = λ d t p. refl;
  range_from_lem = λ d t lo. refl;
  range_to_lem = λ d t hi. refl;
  tree_names_complete = names_complete;
}

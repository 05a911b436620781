-- ===== src/Pb/Simple.antt =====
-- A coding that meets the laws of the messages: every byte string is preceded by its length, every
-- list by its count. Floats are integers here.
use mydis_old.Prelude.{
  ℕ, zero, suc, ◌≡◌, refl, Option, none, some, List, [], ◌∷◌, Bytes, ℤ, pos, negsuc, length,
}
use mydis_old.Errors.{reply}
use mydis_old.Pb.{Proto, IntValue, FloatValue, PbList, Hash, Fields, Codec}
use mydis_old.Pb.Laws.{IsProto, normal_fields}

-- What is read, and what follows it.
abbrev pub Reader : Type 0 → Type 0
Reader A = Bytes → A × Bytes

abbrev write_int : ℤ → Bytes → Bytes
write_int (pos n) r = 0 ∷ n ∷ r
write_int (negsuc n) r = 1 ∷ n ∷ r

abbrev read_int : Reader ℤ
read_int (zero ∷ n ∷ r) = (pos n, r)
read_int ((suc k) ∷ n ∷ r) = (negsuc n, r)
read_int r = (pos 0, r)

read_int-write_int : (z : ℤ) (r : Bytes) → read_int (write_int z r) ≡ (z, r)
read_int-write_int (pos n) r = refl
read_int-write_int (negsuc n) r = refl

abbrev write_all : {A : Type 0} → (A → Bytes → Bytes) → List A → Bytes → Bytes
write_all w [] r = r
write_all w (x ∷ xs) r = w x (write_all w xs r)

abbrev read_all : {A : Type 0} → Reader A → ℕ → Reader (List A)
read_all g zero r = ([], r)
read_all g (suc n) r = let (x, t) = g r in let (xs, u) = read_all g n t in (x ∷ xs, u)

read_all-write_all :
    {A : Type 0} (w : A → Bytes → Bytes) (g : Reader A)
    → ((x : A) (r : Bytes) → g (w x r) ≡ (x, r))
    → (xs : List A) (r : Bytes) → read_all g (length xs) (write_all w xs r) ≡ (xs, r)
read_all-write_all w g h [] r = refl
read_all-write_all w g h (x ∷ xs) r =
    rw (h x (write_all w xs r)) (rw (read_all-write_all w g h xs r) refl)

abbrev write_list : {A : Type 0} → (A → Bytes → Bytes) → List A → Bytes → Bytes
write_list w xs r = length xs ∷ write_all w xs r

abbrev read_list : {A : Type 0} → Reader A → Reader (List A)
read_list g [] = ([], [])
read_list g (n ∷ r) = read_all g n r

abbrev write_byte : ℕ → Bytes → Bytes
write_byte n r = n ∷ r

abbrev read_byte : Reader ℕ
read_byte [] = (0, [])
read_byte (n ∷ r) = (n, r)

abbrev write_bytes : Bytes → Bytes → Bytes
write_bytes = write_list write_byte

abbrev read_bytes : Reader Bytes
read_bytes = read_list read_byte

read_bytes-write_bytes : (b r : Bytes) → read_bytes (write_bytes b r) ≡ (b, r)
read_bytes-write_bytes = read_all-write_all write_byte read_byte λ x r. refl

abbrev write_field : Bytes × Bytes → Bytes → Bytes
write_field (k, v) r = write_bytes k (write_bytes v r)

abbrev read_field : Reader (Bytes × Bytes)
read_field b = let (k, r) = read_bytes b in let (v, t) = read_bytes r in ((k, v), t)

read_field-write_field : (f : Bytes × Bytes) (r : Bytes) → read_field (write_field f r) ≡ (f, r)
read_field-write_field (k, v) r =
    rw (read_bytes-write_bytes k (write_bytes v r)) (rw (read_bytes-write_bytes v r) refl)

abbrev fields_of : Option Fields → Fields
fields_of none = []
fields_of (some fs) = fs

abbrev map_of : Fields → Option Fields
map_of fs = normal_fields (some fs)

map_of-fields_of : (h : Option Fields) → map_of (fields_of h) ≡ normal_fields h
map_of-fields_of none = refl
map_of-fields_of (some fs) = refl

abbrev int_values : Codec IntValue
int_values = record {
  marshal = λ m. reply (write_bytes m.key (write_int m.value []));
  unmarshal = λ b. let (k, r) = read_bytes b in reply (record { key = k; value = (read_int r).0 });
}

abbrev float_values : Codec (FloatValue ℤ)
float_values = record {
  marshal = λ m. reply (write_bytes m.key (write_int m.value []));
  unmarshal = λ b. let (k, r) = read_bytes b in reply (record { key = k; value = (read_int r).0 });
}

abbrev list_values : Codec PbList
list_values = record {
  marshal = λ m. reply (write_bytes m.key (write_int m.limit (write_list write_bytes m.value [])));
  unmarshal = λ b.
      let (k, r) = read_bytes b in
      let (l, t) = read_int r in
      reply (record { key = k; value = (read_list read_bytes t).0; limit = l });
}

abbrev hash_values : Codec Hash
hash_values = record {
  marshal = λ m. reply (write_bytes m.key (write_list write_field (fields_of m.value) []));
  unmarshal = λ b.
      let (k, r) = read_bytes b in
      reply (record { key = k; value = map_of (read_list read_field r).0 });
}

abbrev pub simple : Proto
simple = record {
  Float = ℤ;
  float_zero = pos 0;
  float_add = λ x y. y;
  float_negate = λ x. x;
  ints = int_values;
  floats = float_values;
  lists = list_values;
  hashes = hash_values;
}

pub simple-IsProto : IsProto simple
simple-IsProto = record {
  ints_round_trip = λ m. (
    _,
    refl,
    rw (read_bytes-write_bytes m.key (write_int m.value []))
        (rw (read_int-write_int m.value []) refl),
  );
  floats_round_trip = λ m. (
    _,
    refl,
    rw (read_bytes-write_bytes m.key (write_int m.value []))
        (rw (read_int-write_int m.value []) refl),
  );
  lists_round_trip = λ m. (
    _,
    refl,
    rw (read_bytes-write_bytes m.key (write_int m.limit (write_list write_bytes m.value []))) (
        rw (read_int-write_int m.limit (write_list write_bytes m.value []))
          (rw (read_all-write_all write_bytes read_bytes read_bytes-write_bytes m.value []) refl)),
  );
  hashes_round_trip = λ m. (
    _,
    refl,
    rw (read_bytes-write_bytes m.key (write_list write_field (fields_of m.value) [])) (
        rw (read_all-write_all write_field read_field read_field-write_field (fields_of m.value) [])
          (rw (map_of-fields_of m.value) refl)),
  );
}

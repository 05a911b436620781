-- ===== src/Value/Laws.antt =====
-- Theorems on the Values of util/value.go.
use mydis_old.Prelude.{
  map, ap, ◌∙◌, Option, ◌≡◌, refl, Bool, true, false, none, some, List, [], ◌∷◌, Bytes, ℤ, pos,
}
use mydis_old.Errors.{Reply, reply}
use mydis_old.Value.{
  map_values, of_bytes, Input, bool_bytes, float_bytes, bool_map_in, float_map_in, value_map_in,
  Value, MapOf, new_value, to_int, to_bool, to_float, to_duration, to_list, to_map, to_bytes,
  list_to_values, map_bytes_to_values, map_bytes, value_bytes, int_bytes, int_in, bool_in, float_in,
  duration_in, string_in, byte_slices_in, values_in, bytes_map_in, int_map_in,
}
use mydis_old.Pb.{Proto, Fields}
use mydis_old.Pb.Laws.{IsProto, normal_fields}

map_bytes_to_values-normal_fields :
    (m : Option Fields) → map_bytes_to_values (normal_fields m) ≡ map_bytes_to_values m
map_bytes_to_values-normal_fields none = refl
map_bytes_to_values-normal_fields (some []) = refl
map_bytes_to_values-normal_fields (some (f ∷ fs)) = refl

to_bool-bool_in : (P : Proto) (b : Bool) → to_bool (new_value P (bool_in b)) ≡ reply b
unfolding to_bool new_value
to_bool-bool_in P true = refl
to_bool-bool_in P false = refl

-- A Value without an error.
abbrev pub plain : Bytes → Value
plain b = record { error = none; b = b }

-- What a map holds; a nil map is empty.
abbrev pub entries : {A : Type 0} → MapOf A → List (Bytes × A)
entries none = []
entries (some l) = l

-- The values of a map are changed, its keys are not.
abbrev pub map_entries : {A B : Type 0} → (A → B) → List (Bytes × A) → List (Bytes × B)
map_entries f = map (λ e. (e.0, f e.1))

list_to_values_lem : (xs : List Bytes) → list_to_values xs ≡ map plain xs
list_to_values_lem [] = refl
list_to_values_lem (x ∷ xs) = ap (λ vs. plain x ∷ vs) (list_to_values_lem xs)

value_bytes_lem : (vs : List Value) → list_to_values (value_bytes vs) ≡ map (λ v. plain v.b) vs
value_bytes_lem [] = refl
value_bytes_lem (v ∷ vs) = ap (λ ws. plain v.b ∷ ws) (value_bytes_lem vs)

map_values_lem :
    {A : Type 0} (f : A → Bytes) (l : List (Bytes × A))
    → map_values of_bytes (map_values f l) ≡ map_entries (λ x. plain (f x)) l
map_values_lem f [] = refl
map_values_lem f ((k, x) ∷ l) = ap (λ ws. (k, plain (f x)) ∷ ws) (map_values_lem f l)

map_values-of_bytes : (l : List (Bytes × Bytes)) → map_values of_bytes l ≡ map_entries plain l
map_values-of_bytes [] = refl
map_values-of_bytes ((k, x) ∷ l) = ap (λ ws. (k, plain x) ∷ ws) (map_values-of_bytes l)

map_bytes_lem :
    {A : Type 0} (f : A → Bytes) (m : MapOf A)
    → map_bytes_to_values (map_bytes f m) ≡ map_entries (λ x. plain (f x)) (entries m)
map_bytes_lem f none = refl
map_bytes_lem f (some l) = map_values_lem f l

map_bytes_to_values_lem : (m : MapOf Bytes) → map_bytes_to_values m ≡ map_entries plain (entries m)
map_bytes_to_values_lem none = refl
map_bytes_to_values_lem (some l) = map_values-of_bytes l

-- Where a conversion comes back, it comes back at each key.
map_entries-back :
    {A : Type 0} (f : A → Bytes) (g : Value → Reply A)
    → ((x : A) → g (plain (f x)) ≡ reply x)
    → (l : List (Bytes × A))
    → map_entries g (map_entries (λ x. plain (f x)) l) ≡ map_entries reply l
map_entries-back f g h [] = refl
map_entries-back f g h ((k, x) ∷ l) =
    rw (h x) (ap (λ ws. (k, reply x) ∷ ws) (map_entries-back f g h l))

module _ (P : Proto) (PL : IsProto P) where
  to_int-int_in : (z : ℤ) → to_int P (new_value P (int_in z)) ≡ reply z
  unfolding to_int new_value
  to_int-int_in z =
      let (b, e, u) = PL.ints_round_trip (record { key = []; value = z }) in rw e (rw u refl)

  to_float-float_in : (f : P.Float) → to_float P (new_value P (float_in f)) ≡ reply f
  unfolding to_float new_value
  to_float-float_in f =
      let (b, e, u) = PL.floats_round_trip (record { key = []; value = f }) in rw e (rw u refl)

  to_list-byte_slices_in :
      (xs : List Bytes) → to_list P (new_value P (byte_slices_in xs)) ≡ reply (list_to_values xs)
  unfolding to_list new_value
  to_list-byte_slices_in xs =
      let (b, e, u) = PL.lists_round_trip (record { key = []; value = xs; limit = pos 0 }) in
      rw e (rw u refl)

  to_map-bytes_map_in :
      (m : Option Fields) → to_map P (new_value P (bytes_map_in m)) ≡ reply (map_bytes_to_values m)
  unfolding to_map new_value
  to_map-bytes_map_in m =
      let (b, e, u) = PL.hashes_round_trip (record { key = []; value = m }) in
      rw e (rw u (rw (map_bytes_to_values-normal_fields m) refl))

  -- Where the protocol buffers keep their round trip laws, an int64, a Duration, a float64, a bool
  -- and a string that go through NewValue come back unchanged from Int, Duration, Float, Bool and
  -- the bytes of the Value.
  pub new_value-scalars :
      (z d : ℤ) (f : P.Float) (t : Bool) (s : Bytes)
      → (to_int P (new_value P (int_in z)) ≡ reply z)
        × (to_duration P (new_value P (duration_in d)) ≡ reply d)
        × (to_float P (new_value P (float_in f)) ≡ reply f)
        × (to_bool (new_value P (bool_in t)) ≡ reply t)
        × (to_bytes (new_value P (string_in s)) ≡ reply s)
  unfolding to_duration to_bytes new_value
  new_value-scalars z d f t s =
      (to_int-int_in z, to_int-int_in d, to_float-float_in f, to_bool-bool_in P t, refl)

  -- The Values of a map, each of which a method takes back to what was in the map.
  abbrev pub ComesBack : {A : Type 0} → (Value → Reply A) → Input P.Float → MapOf A → Type 0
  ComesBack g input m =
      (w : List (Bytes × Value)) × (to_map P (new_value P input) ≡ reply w)
      × (map_entries g w ≡ map_entries reply (entries m))

  map_bytes-ComesBack :
      {A : Type 0} (f : A → Bytes) (g : Value → Reply A)
      → ((x : A) → g (plain (f x)) ≡ reply x)
      → (m : MapOf A) (input : Input P.Float)
      → new_value P input ≡ new_value P (bytes_map_in (map_bytes f m))
      → ComesBack g input m
  map_bytes-ComesBack f g h m input e = (
    map_entries (λ x. plain (f x)) (entries m),
    ap (to_map P) e ∙ to_map-bytes_map_in (map_bytes f m) ∙ ap reply (map_bytes_lem f m),
    map_entries-back f g h (entries m),
  )

  -- Where the protocol buffers keep their round trip laws, what goes through NewValue comes back
  -- from List or Map item by item, in order: a slice of byte slices or of Values, and a map to byte
  -- slices or to Values, as Values without errors that have the bytes of the items; a map to int64,
  -- to bool or to float64, with the same keys, as Values from which Int, Bool or Float return the
  -- items. A nil map comes back empty.
  pub new_value-collections :
      (xs : List Bytes) (vs : List Value) (m : MapOf Bytes) (us : MapOf Value) (n : MapOf ℤ)
      (bs : MapOf Bool) (fs : MapOf P.Float)
      → (to_list P (new_value P (byte_slices_in xs)) ≡ reply (map plain xs))
        × (to_list P (new_value P (values_in vs)) ≡ reply (map (λ v. plain v.b) vs))
        × (to_map P (new_value P (bytes_map_in m)) ≡ reply (map_entries plain (entries m)))
        × (to_map P (new_value P (value_map_in us))
            ≡ reply (map_entries (λ v. plain v.b) (entries us)))
        × ComesBack (to_int P) (int_map_in n) n
        × ComesBack to_bool (bool_map_in bs) bs
        × ComesBack (to_float P) (float_map_in fs) fs
  unfolding new_value
  new_value-collections xs vs m us n bs fs = (
    to_list-byte_slices_in xs ∙ ap reply (list_to_values_lem xs),
    to_list-byte_slices_in (value_bytes vs) ∙ ap reply (value_bytes_lem vs),
    to_map-bytes_map_in m ∙ ap reply (map_bytes_to_values_lem m),
    to_map-bytes_map_in (map_bytes (λ v. v.b) us) ∙ ap reply (map_bytes_lem (λ v. v.b) us),
    map_bytes-ComesBack (int_bytes P) (to_int P) to_int-int_in n (int_map_in n) refl,
    map_bytes-ComesBack bool_bytes to_bool (to_bool-bool_in P) bs (bool_map_in bs) refl,
    map_bytes-ComesBack (float_bytes P) (to_float P) to_float-float_in fs (float_map_in fs) refl,
  )

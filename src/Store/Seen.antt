-- ===== src/Store/Seen.antt =====
-- What `MemoryCursorStore` of src/store.rs promises to a client that reconnects.
use turntf_rs.Prelude.{
  ◌≡◌, refl, sym, ap, ◌∙◌, ◌⊎◌, inl, inr, Bool, true, false, List, [], ◌∷◌, ◌++◌, some,
  Option-cases, arith, if◌then◌else◌,
}
use turntf_rs.Prelude.Dict.{Dict, lookup, insert, lookup-insert_self, lookup-insert_ne}
use turntf_rs.Types.{Message, MessageCursor, cursor, MessageCursor-discrete}
use turntf_rs.Store.Memory.{
  MemoryCursorStore, new_store, message, has_cursor, contains, save_message, save_cursor,
  placeholder, or_insert, is_some,
}

-- No cursor occurs twice.
abbrev pub IsDistinct : List MessageCursor → Type 0
IsDistinct [] = Unit {0}
IsDistinct (c ∷ cs) = (contains c cs ≡ false) × IsDistinct cs

-- What a store is asked to do.
pub data Request : Type 0 where
  of_message : Message → Request
  of_cursor : MessageCursor → Request

unfoldable pub serve : List Request → MemoryCursorStore → MemoryCursorStore
unfolding save_message save_cursor
serve [] s = s
serve (of_message m ∷ rs) s = serve rs (save_message m s)
serve (of_cursor c ∷ rs) s = serve rs (save_cursor c s)

-- Each listed cursor has a message, and none is listed twice.
pub record IsSound (s : MemoryCursorStore) : Type 0 where
  pub distinct : IsDistinct s.order
  pub known : (c : MessageCursor) → contains c s.order ≡ true → has_cursor c s ≡ true

contains-append :
    (c d : MessageCursor) (cs : List MessageCursor)
    → contains c (cs ++ d ∷ []) ≡ true
    → (contains c cs ≡ true) ⊎ (d ≡ c)
unfolding contains
contains-append c d [] h = ground arith
contains-append c d (x ∷ cs) h = ground (arith, contains-append c d cs)

pub contains-append_old :
    (c d : MessageCursor) (cs : List MessageCursor)
    → contains c cs ≡ true
    → contains c (cs ++ d ∷ []) ≡ true
unfolding contains
contains-append_old c d [] h = ground arith
contains-append_old c d (x ∷ cs) h = ground (arith, contains-append_old c d cs)

contains-append_new :
    (d : MessageCursor) (cs : List MessageCursor) → contains d (cs ++ d ∷ []) ≡ true
unfolding contains
contains-append_new d [] = ground arith
contains-append_new d (x ∷ cs) = ground (arith, contains-append_new d cs)

append-IsDistinct :
    (d : MessageCursor) (cs : List MessageCursor)
    → contains d cs ≡ false
    → IsDistinct cs
    → IsDistinct (cs ++ d ∷ [])
unfolding contains
append-IsDistinct d [] h k = (refl, tt)
append-IsDistinct d (x ∷ cs) h k =
    (ground (arith, contains-append x d cs, k.0), append-IsDistinct d cs (ground arith) k.1)

insert-has :
    (k c : MessageCursor) (m : Message) (ms : Dict MessageCursor Message)
    → (is_some (lookup MessageCursor-discrete c ms) ≡ true) ⊎ (k ≡ c)
    → is_some (lookup MessageCursor-discrete c (insert MessageCursor-discrete k m ms)) ≡ true
insert-has k c m ms h = elim (MessageCursor-discrete k c) [
  | yes e ↦
      ap (λ j. is_some (lookup MessageCursor-discrete j (insert MessageCursor-discrete k m ms)))
        (sym e)
      ∙ ap is_some (lookup-insert_self MessageCursor-discrete k m ms)
  | no n ↦ ap is_some (lookup-insert_ne MessageCursor-discrete k c m ms n) ∙ old n h
]
  where
    old :
        ¬ (k ≡ c)
        → (is_some (lookup MessageCursor-discrete c ms) ≡ true) ⊎ (k ≡ c)
        → is_some (lookup MessageCursor-discrete c ms) ≡ true
    old n (inl e) = e
    old n (inr e) = absurd (n e)

save_message-has :
    (m : Message) (c : MessageCursor) (s : MemoryCursorStore)
    → has_cursor c s ≡ true
    → has_cursor c (save_message m s) ≡ true
unfolding has_cursor save_message
save_message-has m c s h = insert-has (cursor m) c m s.messages (inl h)

save_message-IsSound :
    (m : Message) (s : MemoryCursorStore) → IsSound s → IsSound (save_message m s)
save_message-IsSound m s w = record {
  distinct = unfold save_message in w.distinct;
  known = λ c h. save_message-has m c s (w.known c (unfold save_message in h));
}

save_cursor-has :
    (d c : MessageCursor) (s : MemoryCursorStore)
    → (has_cursor c s ≡ true) ⊎ (d ≡ c)
    → has_cursor c (save_cursor d s) ≡ true
unfolding has_cursor save_cursor
save_cursor-has d c s h = elim (Option-cases (lookup MessageCursor-discrete d s.messages)) [
  | inl e ↦ rw (e, or_insert) (insert-has d c (placeholder d) s.messages h)
  | inr (x, e) ↦ rw (e, or_insert) (old x e h)
]
  where
    old :
        (x : Message)
        → lookup MessageCursor-discrete d s.messages ≡ some x
        → (is_some (lookup MessageCursor-discrete c s.messages) ≡ true) ⊎ (d ≡ c)
        → is_some (lookup MessageCursor-discrete c s.messages) ≡ true
    old x e (inl k) = k
    old x e (inr k) =
        ap (λ j. is_some (lookup MessageCursor-discrete j s.messages)) (sym k) ∙ ap is_some e

-- The list of cursors after `save_cursor`.
listed : Bool → MessageCursor → List MessageCursor → List MessageCursor
listed b d cs = if b then cs else cs ++ d ∷ []

listed-known :
    (b : Bool) (d c : MessageCursor) (cs : List MessageCursor)
    → contains c (listed b d cs) ≡ true
    → (contains c cs ≡ true) ⊎ (d ≡ c)
unfolding listed
listed-known true d c cs h = inl h
listed-known false d c cs h = contains-append c d cs h

listed-IsDistinct :
    (b : Bool) (d : MessageCursor) (cs : List MessageCursor)
    → contains d cs ≡ b
    → IsDistinct cs
    → IsDistinct (listed b d cs)
unfolding listed
listed-IsDistinct true d cs h k = k
listed-IsDistinct false d cs h k = append-IsDistinct d cs h k

save_cursor-IsSound :
    (d : MessageCursor) (s : MemoryCursorStore) → IsSound s → IsSound (save_cursor d s)
save_cursor-IsSound d s w = record {
  distinct =
      unfold save_cursor in
      unfold listed in listed-IsDistinct (contains d s.order) d s.order refl w.distinct;
  known = λ c h. save_cursor-has d c s (
      still c
        (listed-known (contains d s.order) d c s.order (unfold save_cursor in unfold listed in h)));
}
  where
    still :
        (c : MessageCursor)
        → (contains c s.order ≡ true) ⊎ (d ≡ c)
        → (has_cursor c s ≡ true) ⊎ (d ≡ c)
    still c (inl e) = inl (w.known c e)
    still c (inr e) = inr e

serve-IsSound : (rs : List Request) (s : MemoryCursorStore) → IsSound s → IsSound (serve rs s)
unfolding serve
serve-IsSound [] s w = w
serve-IsSound (of_message m ∷ rs) s w = serve-IsSound rs _ (save_message-IsSound m s w)
serve-IsSound (of_cursor c ∷ rs) s w = serve-IsSound rs _ (save_cursor-IsSound c s w)

-- Whatever messages and cursors a new store is asked to save, in whatever order, its list of seen
-- cursors has no cursor twice, and a message is stored for each cursor in it.
pub seen-IsSound : (rs : List Request) → IsSound (serve rs new_store)
unfolding contains
seen-IsSound rs = serve-IsSound rs new_store (record { distinct = tt; known = λ c h. cc h })

-- Saving a message and then its cursor makes the message the one stored under the cursor, and the
-- cursor one of those that a reconnecting client reports as seen.
pub persisted_is_seen :
    (m : Message) (s : MemoryCursorStore)
    → let s' = save_cursor (cursor m) (save_message m s) in
      (message (cursor m) s' ≡ some m) × (contains (cursor m) s'.order ≡ true)
unfolding save_cursor save_message message
persisted_is_seen m s = (
  rw (lookup-insert_self MessageCursor-discrete (cursor m) m s.messages, or_insert)
      (lookup-insert_self MessageCursor-discrete (cursor m) m s.messages),
  listed_own (contains (cursor m) s.order) refl,
)
  where
    listed_own :
        (b : Bool)
        → contains (cursor m) s.order ≡ b
        → contains (cursor m) (if b then s.order else s.order ++ cursor m ∷ []) ≡ true
    listed_own true e = e
    listed_own false e = contains-append_new (cursor m) s.order

-- A message that is stored stays the one under its cursor whatever cursors are saved: the stand-in
-- without content replaces nothing.
pub save_cursor_keeps :
    (c d : MessageCursor) (m : Message) (s : MemoryCursorStore)
    → message c s ≡ some m
    → message c (save_cursor d s) ≡ some m
unfolding save_cursor message
save_cursor_keeps c d m s h = elim (Option-cases (lookup MessageCursor-discrete d s.messages)) [
  | inl e ↦
      rw (e, or_insert)
        (lookup-insert_ne MessageCursor-discrete d c (placeholder d) s.messages
            (λ same. cc (ap (λ k. lookup MessageCursor-discrete k s.messages) same, e, h))
          ∙ h)
  | inr (x, e) ↦ rw (e, or_insert) h
]

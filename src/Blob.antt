-- ===== src/Blob.antt =====
-- blob.h and blob.cpp: counted buffers. A `blob` is a pointer to a `blob_data`, or null; every object of
-- the program has a place in the list `blobs`, which it keeps when it is destroyed. A block that has
-- been deleted is `none`, and its address is not used again, so that any use of it is a fault.
pub mod Counting
pub mod Values
pub mod Writing
pub mod Calls
pub mod Hex
use osdpmaster.Prelude.{
  ℕ, zero, suc, ◌+◌, ◌-◌, ◌%◌, ◌^◌, Bool, true, false, not, ◌&&◌, ◌==◌, List, [], ◌∷◌, ◌++◌, Option,
  none, some, if◌then◌else◌, length, get_elem?, set, Bytes, same_text,
}
use osdpmaster.Katomic.{katomic_inc, katomic_dec_test}
use osdpmaster.Run.{Run, Cmd, ok, fault, pure, and_then, ◌>>=◌, ◌>>◌, get, modify}

pub record BlobData : Type 0 where
  pub content : Bytes
  pub refcount : ℕ

-- `m_container` of an object: a pointer, NULL, or of an object that is destroyed.
pub data Slot : Type 0 where
  destroyed null : Slot
  at : ℕ → Slot

pub record Store : Type 0 where
  pub cell : ℕ → Option BlobData
  pub next : ℕ
  pub blobs : List Slot

abbrev pub update_cell : ℕ → Option BlobData → Store → Store
update_cell a d s = record s { cell = λ b. if b == a then d else s.cell b }

-- What stands at an address; a deleted block must not be used.
unfoldable pub loaded : Option BlobData → Cmd Store BlobData
loaded none s = fault
loaded (some d) s = ok d s

abbrev pub load : ℕ → Cmd Store BlobData
load a s = loaded (s.cell a) s

-- `new blob_data`, with its content.
unfoldable pub new_data : Bytes → Cmd Store ℕ
new_data bytes s = ok s.next (record s {
  cell = λ b. if b == s.next then some (record { content = bytes; refcount = 1 }) else s.cell b;
  next = s.next + 1;
})

-- `blob_data::ref` and `blob_data::unref`.
unfoldable pub ref : ℕ → Cmd Store (Unit {0})
ref a = do
  d ← load a
  modify (update_cell a (some (record d { refcount = (katomic_inc d.refcount).0 })))

unfoldable pub unref : ℕ → Cmd Store (Unit {0})
unref a = do
  d ← load a
  modify (
      update_cell a (
        if (katomic_dec_test d.refcount).1
        then none
        else some (record d { refcount = (katomic_dec_test d.refcount).0 })))

-- The object at a place, which must be alive.
unfoldable pub alive : Option Slot → Cmd Store Slot
alive none s = fault
alive (some destroyed) s = fault
alive (some null) s = ok null s
alive (some (at a)) s = ok (at a) s

abbrev pub container : ℕ → Cmd Store Slot
container i s = alive (get_elem? s.blobs i) s

-- `if(m_container)`, for a call on it.
unfoldable pub on_data : (ℕ → Cmd Store (Unit {0})) → Slot → Cmd Store (Unit {0})
on_data k destroyed s = fault
on_data k null s = ok tt s
on_data k (at a) s = k a s

abbrev pub append_blob : Slot → Cmd Store (Unit {0})
append_blob c = modify (λ s. record s { blobs = s.blobs ++ c ∷ [] })

abbrev pub set_blob : ℕ → Slot → Cmd Store (Unit {0})
set_blob i c = modify (λ s. record s { blobs = set s.blobs i c })

-- `&content[0]`, which is outside the vector where the content is empty.
unfoldable pub content_start : {S : Type 0} → Bytes → Cmd S (Unit {0})
content_start [] s = fault
content_start (b ∷ bs) s = ok tt s

-- The constructors: default, copy, from memory (and from the vectors), from a string with the zero
-- byte behind it, and from a C string, which may be NULL.
unfoldable pub blob_null : Cmd Store (Unit {0})
blob_null = append_blob null

unfoldable pub blob_copy : ℕ → Cmd Store (Unit {0})
blob_copy from = do c ← container from; on_data ref c; append_blob c

unfoldable pub blob_bytes : Bytes → Cmd Store (Unit {0})
blob_bytes bytes = do a ← new_data bytes; content_start bytes; append_blob (at a)

unfoldable pub blob_string : Bytes → Cmd Store (Unit {0})
blob_string text = blob_bytes (text ++ 0 ∷ [])

unfoldable pub blob_c_string : Option Bytes → Cmd Store (Unit {0})
blob_c_string none = blob_null
blob_c_string (some text) = blob_string text

-- The destructor.
unfoldable pub destroy : ℕ → Cmd Store (Unit {0})
destroy i = do c ← container i; on_data unref c; set_blob i destroyed

-- `operator=`: the new block is counted first, then the old one is let go.
unfoldable pub assign : ℕ → ℕ → Cmd Store (Unit {0})
assign i from = do
  c ← container from
  on_data ref c
  d ← container i
  on_data unref d
  e ← container from
  set_blob i e

-- `get` gives the content of an object, that of `empty_blob` for a null one.
unfoldable pub content_of : Slot → Cmd Store Bytes
content_of destroyed s = fault
content_of null s = ok [] s
content_of (at a) s = and_then (load a s) (λ d. ok d.content)

unfoldable pub get_blob : ℕ → Cmd Store Bytes
get_blob i = do c ← container i; content_of c

unfoldable pub size_of : ℕ → Cmd Store ℕ
size_of i = do bytes ← get_blob i; pure (length bytes)

-- `str` copies the content, from its start.
unfoldable pub str_of : Slot → Cmd Store Bytes
str_of destroyed s = fault
str_of null s = ok [] s
str_of (at a) s = and_then (load a s) (λ d. content_start d.content >> pure d.content)

unfoldable pub str : ℕ → Cmd Store Bytes
str i = do c ← container i; str_of c

unfoldable pub address_of : Slot → Option ℕ
address_of (at a) = some a
address_of null = none
address_of destroyed = none

-- `pvoid` and `c_str` give the address of the content of the block, or NULL.
unfoldable pub start_of : ℕ → Cmd Store (Unit {0})
start_of a = do d ← load a; content_start d.content

unfoldable pub pvoid : ℕ → Cmd Store (Option ℕ)
pvoid i = do c ← container i; on_data start_of c; pure (address_of c)

unfoldable pub isnull : ℕ → Cmd Store Bool
isnull i = do c ← container i; pure (elim (address_of c) [ none ↦ true | some a ↦ false ])

-- `update`: a null object gets an empty block of its own.
unfoldable pub own_data : ℕ → Slot → Cmd Store ℕ
own_data i destroyed s = fault
own_data i (at a) s = ok a s
own_data i null s = and_then (new_data [] s) (λ a t. and_then (set_blob i (at a) t) (λ u. ok a))

unfoldable pub update : ℕ → Cmd Store ℕ
update i = do c ← container i; own_data i c

-- What a caller does with the reference that `update` returns: the content is replaced.
unfoldable pub write_data : Bytes → ℕ → Cmd Store (Unit {0})
write_data bytes a = do d ← load a; modify (update_cell a (some (record d { content = bytes })))

unfoldable pub write_blob : ℕ → Bytes → Cmd Store (Unit {0})
write_blob i bytes = do a ← update i; write_data bytes a

-- `clone`: a new object, and where this one is not null a block of its own with the same content.
unfoldable pub copy_content : ℕ → Slot → Cmd Store (Unit {0})
copy_content j destroyed s = fault
copy_content j null s = ok tt s
copy_content j (at a) s =
    and_then (load a s) (λ d. content_start d.content >> (update j >>= λ b. write_data d.content b))

unfoldable pub clone : ℕ → Cmd Store (Unit {0})
clone i = do c ← container i; s ← get; blob_null; copy_content (length s.blobs) c

-- `operator==` and `operator!=`.
unfoldable pub equals : ℕ → ℕ → Cmd Store Bool
equals i j = do
  left ← get_blob i
  right ← get_blob j
  pure (
      if not (length left == length right)
      then false
      else if length left == 0
      then true
      else same_text left right)

unfoldable pub differs : ℕ → ℕ → Cmd Store Bool
differs i j = do e ← equals i j; pure (not e)

unfoldable pub clear : ℕ → Cmd Store (Unit {0})
clear i = do c ← container i; on_data unref c; set_blob i null

-- `operator[]`: the object must not be null, and the index within its content.
unfoldable pub byte_of : Option ℕ → Cmd Store ℕ
byte_of none s = fault
byte_of (some b) s = ok b s

unfoldable pub byte_in : ℕ → Slot → Cmd Store ℕ
byte_in ix destroyed s = fault
byte_in ix null s = fault
byte_in ix (at a) s = and_then (load a s) (λ d. byte_of (get_elem? d.content ix))

unfoldable pub index : ℕ → ℕ → Cmd Store ℕ
index i ix = do c ← container i; byte_in ix c

-- What a client does with its objects.
pub data Call : Type 0 where
  makes_null : Call
  makes : Bytes → Call
  copies destroys clones clears : ℕ → Call
  assigns : ℕ → ℕ → Call
  writes : ℕ → Bytes → Call

unfoldable pub call : Call → Cmd Store (Unit {0})
call makes_null = blob_null
call (makes bytes) = blob_bytes bytes
call (copies i) = blob_copy i
call (destroys i) = destroy i
call (clones i) = clone i
call (clears i) = clear i
call (assigns i j) = assign i j
call (writes i bytes) = write_blob i bytes

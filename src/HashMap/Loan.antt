-- ===== src/HashMap/Loan.antt =====
-- Keys that `hmap_rehash` borrows.
use neonrt.Base.{ℕ, ◌+◌, ◌≡◌, refl, sym, some, List}
use neonrt.Word.{add_size}
use neonrt.Memory.{Ptr, null, HmapBucket, buff, Heap, write, ok}
use neonrt.Memory.Rules.{load_buff-ok, Holds-write, Holds-write_ne}
use neonrt.Memory.Frame.{Frame, Frame-lent}
use neonrt.Buffer.{buff_len}
use neonrt.Buffer.Rules.{KeyAt, apart, buff_borrow-ok, read_bytes-ok}
use neonrt.HashMap.{Hmap}
use neonrt.HashMap.Resize.{borrow_key}
use neonrt.HashMap.Slot.{Slot-Frame}
use neonrt.HashMap.Represent.{Contents, Table}

-- Memory in which a key has one more reference out.
abbrev pub loan : {h : Heap} (p : Ptr) {key : List ℕ} → KeyAt h p key → Heap
loan {h} p k = write h p (some (buff (record k.struct { ref_ct = add_size k.struct.ref_ct 1 })))

pub loan-Frame :
    {h : Heap} {p : Ptr} {key : List ℕ} (k : KeyAt h p key) (self last : Ptr)
    → Frame h (loan p k) self last
loan-Frame k self last = Frame-lent self last (add_size k.struct.ref_ct 1) k.is.struct

pub borrow_key-ok :
    {h : Heap} {p : Ptr} {key : List ℕ} (m : Hmap) (k : KeyAt h p key)
    → borrow_key p m h ≡ ok (key, m) (loan p k)
unfolding borrow_key buff_len
borrow_key-ok {h} {p} m k =
    let lent = record k.struct { ref_ct = add_size k.struct.ref_ct 1 } in
    let stored = Holds-write_ne p (some (buff lent)) k.is.stored (λ e. apart k.is (sym e)) in
    rw
      (
        buff_borrow-ok k.is.struct k.unlocked,
        load_buff-ok (Holds-write k.is.struct (buff lent)),
        read_bytes-ok k.struct.len stored k.is.len_in,
        k.holds,
      )
      refl

-- An array stands for the same under a change that spares every list.
pub Table-Frame :
    {h h' : Heap} {bs : List HmapBucket} {n base : ℕ} {own : Ptr → ℕ} {contents : Contents}
    → Frame h h' null null
    → Table h bs n base own contents
    → Table h' bs n base own contents
Table-Frame {base} {own} f t = record {
  sized = t.sized;
  headers = t.headers;
  ends = t.ends;
  places = λ i lt.
      let p = t.places i lt in
      let (s, keep) = Slot-Frame f (λ e. e) (λ e. e) p.slot in
      record { bucket = p.bucket; found = p.found; slot = s; owned = keep own (base + i) p.owned };
}

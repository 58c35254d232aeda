-- ===== src/Tmpfs/Files.antt =====
-- What a file holds after a write.
use compute_kernel_python.Prelude.{
  ℕ, ◌+◌, ◌-◌, ◌≤◌, ◌≡◌, refl, sym, ap, true, false, none, some, List, [], ◌∷◌, ◌++◌, pos, negsuc,
  length, take, drop, replicate, arith, ◌∙◌, length-append, length-replicate, length-take,
}
use compute_kernel_python.Prelude.Eq.{◌==◌, nat_eq}
use compute_kernel_python.Prelude.Dict.{get-adjust}
use compute_kernel_python.Filesystem.{Inode, is_file, extended, spliced, overwrite}
use compute_kernel_python.Tmpfs.{Tmpfs, lookup, read, write}

module _ {A : Type 0} where
  drop-append_length : (xs ys : List A) → drop (length xs) (xs ++ ys) ≡ ys
  drop-append_length [] ys = refl
  drop-append_length (x ∷ xs) ys = drop-append_length xs ys

  take-append_length : (xs ys : List A) → take (length xs) (xs ++ ys) ≡ xs
  take-append_length [] ys = refl
  take-append_length (x ∷ xs) ys = ap (λ l. x ∷ l) (take-append_length xs ys)

length-extended : (offset : ℕ) (old : List ℕ) → offset ≤ length (extended offset old)
length-extended offset old = omega (
  arith,
  length-append old (replicate (offset - length old) 0),
  length-replicate {A = ℕ} (offset - length old) 0,
)

-- The bytes at the offset are those that were written.
slice-spliced :
    (offset : ℕ) (bytes old : List ℕ)
    → offset ≤ length old
    → take (length bytes) (drop offset (spliced offset bytes old)) ≡ bytes
slice-spliced offset bytes old h =
    let front = take offset old in
    let back = drop (offset + length bytes) old in
    let at : length front ≡ offset = omega (arith, length-take offset old) in
    ap (λ n. take (length bytes) (drop n (front ++ (bytes ++ back)))) (sym at)
    ∙ ap (take (length bytes)) (drop-append_length front (bytes ++ back))
    ∙ take-append_length bytes back

-- A write to a file reports all bytes as written; reading as many bytes at the same offset then
-- returns them; the file is the old one, filled up with zeros to the offset, with these bytes in the
-- place of what stood there; its size is its length; and every other inode is as before.
write_file_lem :
    (ino offset : ℕ) (bytes : List ℕ) (s : Tmpfs) (i : Inode)
    → lookup ino s ≡ some i
    → is_file i.itype ≡ true
    → ((write ino offset bytes s).0 ≡ pos (length bytes))
      × (read ino offset (length bytes) (write ino offset bytes s).1 ≡ bytes)
      × (lookup ino (write ino offset bytes s).1 ≡ some (overwrite offset bytes i))
      × ((overwrite offset bytes i).size ≡ length (overwrite offset bytes i).content)
      × ((k : ℕ) → (ino == k) ≡ false → lookup k (write ino offset bytes s).1 ≡ lookup k s)
unfolding lookup read write
write_file_lem ino offset bytes s i e f =
    let here = get-adjust ino ino (overwrite offset bytes) s.inodes in
    (
      rw (e, f, write),
      ground (
        arith,
        e,
        f,
        here,
        slice-spliced offset bytes (extended offset i.content) (length-extended offset i.content),
      ),
      ground (arith, e, f, here),
      refl,
      λ k n. ground (arith, e, f, get-adjust ino k (overwrite offset bytes) s.inodes),
    )

-- A write to a missing inode is refused with ENOENT, one to an inode that is no file with EINVAL,
-- and a read of either returns no bytes; nothing changes.
pub write-refused :
    (ino offset size : ℕ) (bytes : List ℕ) (s : Tmpfs)
    → (lookup ino s ≡ none
        → (write ino offset bytes s ≡ (negsuc 1, s)) × (read ino offset size s ≡ []))
      × ((i : Inode)
          → lookup ino s ≡ some i
          → is_file i.itype ≡ false
          → (write ino offset bytes s ≡ (negsuc 21, s)) × (read ino offset size s ≡ []))
unfolding lookup read write
write-refused ino offset size bytes s =
    (λ e. (rw (e, write), rw (e, read)), λ i e f. (rw (e, f, write), rw (e, f, read)))

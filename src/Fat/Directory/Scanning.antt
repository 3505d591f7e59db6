-- ===== src/Fat/Directory/Scanning.antt =====
-- src/fs/fat.rs: a visit of a directory's chain is a scan of the list of its entries.
use crab_efi.Prelude.{
  ℕ, zero, suc, ◌+◌, ◌-◌, ◌*◌, ◌/◌, ◌%◌, ◌≤◌, ◌<◌, ◌≡◌, refl, arith, ap, sym, Option, none, some,
  true, false, ◌||◌, Bool-cases, inl, inr, leb, List, [], ◌∷◌, ◌++◌, length, get_elem?,
  length-append, ◌==◌, ◌⊎◌,
}
use native.Mathlib.Nat.{zero-mul, suc-mul}
use crab_efi.Bytes.{byte}
use crab_efi.Disk.{Fallible, ok, ◌>>=◌}
use crab_efi.Fat.{FatFilesystem, cluster_bytes}
use crab_efi.Fat.Chain.{next_cluster}
use crab_efi.Fat.Cluster.{Fault, lift}
use crab_efi.Fat.Directory.{
  DirectoryEntry, dir_entry_at, is_end, is_free, is_lfn, is_volume_id, matches_name, Visit, return,
  ended, on, visit, visit_entries, visit_chain, live_named, live_counted, after_cluster, after_link,
}
use crab_efi.Fat.File.Reading.{Chained, last, link}
use crab_efi.Fat.Directory.Listing.{
  listing, listing_cons, first_named, entries_at, entries_of, entries_of-append,
}

enough_left :
    (fuel a b size : ℕ) {n : ℕ} → n ≡ a + b → n ≤ suc fuel * size → a ≡ size → b ≤ fuel * size
enough_left fuel a b size e enough f = omega (arith, e, f, enough, suc-mul fuel size)

module _ {S : Type 0} (live : S → DirectoryEntry → Visit S) where
  -- The visits of a list of entries, and what they find.
  unfoldable pub scan : S → List DirectoryEntry → Visit S
  scan s [] = on s
  scan s (e ∷ es) = elim (visit live s e) [
    | return e' ↦ return e'
    | ended ↦ ended
    | on s' ↦ scan s' es
  ]

  abbrev pub finish : Visit S → Option DirectoryEntry
  finish (return e) = some e
  finish ended = none
  finish (on s) = none

  abbrev onwards : Visit S → List DirectoryEntry → Visit S
  onwards (return e) es = return e
  onwards ended es = ended
  onwards (on s) es = scan s es

  visit-cases :
      (v : Visit S)
      → ((e : DirectoryEntry) × (v ≡ return e)) ⊎ ((v ≡ ended) ⊎ ((s : S) × (v ≡ on s)))
  visit-cases (return e) = inl (e, refl)
  visit-cases ended = inr (inl refl)
  visit-cases (on s) = inr (inr (s, refl))

  -- A visit at the mark of the end, at an entry that is not in use, and at one that is.
  visit-end : (s : S) (e : DirectoryEntry) → is_end e ≡ true → visit live s e ≡ ended
  unfolding visit
  visit-end s e stop = rw stop refl

  visit-unused :
      (s : S) (e : DirectoryEntry)
      → is_end e ≡ false
      → is_free e || is_lfn e || is_volume_id e ≡ true
      → visit live s e ≡ on s
  unfolding visit
  visit-unused s e go skip = rw (go, skip) refl

  visit-used :
      (s : S) (e : DirectoryEntry)
      → is_end e ≡ false
      → is_free e || is_lfn e || is_volume_id e ≡ false
      → visit live s e ≡ live s e
  unfolding visit
  visit-used s e go used = rw (go, used) refl

  scan-append : (s : S) (xs ys : List DirectoryEntry) → scan s (xs ++ ys) ≡ onwards (scan s xs) ys
  unfolding scan
  scan-append s [] ys = refl
  scan-append s (e ∷ es) ys = elim (visit-cases (visit live s e)) [
    | inl (e', found) ↦ rw (scan, found) refl
    | inr (inl stops) ↦ rw (scan, stops) refl
    | inr (inr (s', goes)) ↦ rw (scan, goes) (scan-append s' es ys)
  ]

  visit_entries-scan :
      (buffer : ℕ → ℕ) (n pos : ℕ) (s : S)
      → visit_entries live buffer n pos s ≡ scan s (entries_at buffer pos n)
  unfolding visit_entries scan entries_at
  visit_entries-scan buffer zero pos s = refl
  visit_entries-scan buffer (suc n) pos s =
      elim (visit-cases (visit live s (dir_entry_at buffer pos))) [
        | inl (e', found) ↦ rw (visit_entries, scan, found) refl
        | inr (inl stops) ↦ rw (visit_entries, scan, stops) refl
        | inr (inr (s', goes)) ↦
            rw (visit_entries, scan, goes) (visit_entries-scan buffer n (pos + 32) s')
      ]

  module _ (fs : FatFilesystem) (positive : 0 < cluster_bytes fs) (small : cluster_bytes fs ≤ 65536)
      (whole : cluster_bytes fs % 32 ≡ 0) where
    Chained-whole :
        (c : ℕ) (bytes : List ℕ) → Chained fs c bytes → (m : ℕ) × (length bytes ≡ 32 * m)
    Chained-whole c bytes (last _ xs reads len end) =
        (cluster_bytes fs / 32, omega (arith, len, whole))
    Chained-whole c bytes (link _ d xs ys reads len next rest) =
        let (m, e) = Chained-whole d ys rest in
        (cluster_bytes fs / 32 + m, omega (arith, len, whole, e, length-append xs ys))

    Chained-long : (c : ℕ) (bytes : List ℕ) → Chained fs c bytes → cluster_bytes fs ≤ length bytes
    Chained-long c bytes (last _ xs reads len end) = omega (arith, len)
    Chained-long c bytes (link _ d xs ys reads len next rest) =
        omega (arith, len, length-append xs ys)

    after_cluster-end :
        (v : Visit S) (next : S → Fallible Fault (Option DirectoryEntry))
        → ((s : S) → next s ≡ ok none)
        → after_cluster live next v ≡ ok (finish v)
    after_cluster-end (return e) next nothing = refl
    after_cluster-end ended next nothing = refl
    after_cluster-end (on s) next nothing = nothing s

    after_cluster-onwards :
        (v : Visit S) (next : S → Fallible Fault (Option DirectoryEntry)) (es : List DirectoryEntry)
        → ((s : S) → next s ≡ ok (finish (scan s es)))
        → after_cluster live next v ≡ ok (finish (onwards v es))
    after_cluster-onwards (return e) next es goes = refl
    after_cluster-onwards ended next es goes = refl
    after_cluster-onwards (on s) next es goes = goes s

    -- With fuel for the clusters of the chain.
    pub visit_chain-scan :
        (fuel c : ℕ) (bytes : List ℕ) (s : S)
        → length bytes ≤ fuel * cluster_bytes fs
        → Chained fs c bytes
        → visit_chain live fs fuel c s ≡ ok (finish (scan s (entries_of bytes)))
    unfolding visit_chain
    visit_chain-scan zero c bytes s enough chain =
        absurd
          (omega (arith, enough, Chained-long c bytes chain, positive, zero-mul (cluster_bytes fs)))
    visit_chain-scan (suc fuel) c bytes s enough (last _ xs reads len end) =
        let fits : leb (cluster_bytes fs) 65536 ≡ true = ground (arith, small) in
        let visits = visit_entries-scan (byte xs) (cluster_bytes fs / 32) 0 s in
        rw (fits, reads, visits, len)
          (after_cluster-end (scan s (entries_at (byte xs) 0 (cluster_bytes fs / 32)))
            (λ s'.
              lift (next_cluster fs c) >>= after_link live (λ d. visit_chain live fs fuel d s'))
            (λ s'. rw end refl))
    visit_chain-scan (suc fuel) c bytes s enough (link _ d xs ys reads len next rest) =
        let fits : leb (cluster_bytes fs) 65536 ≡ true = ground (arith, small) in
        let visits = visit_entries-scan (byte xs) (cluster_bytes fs / 32) 0 s in
        let count : cluster_bytes fs / 32 ≡ length xs / 32 = ap (λ n. n / 32) (sym len) in
        let (m, e) = Chained-whole d ys rest in
        let split =
          entries_of-append (cluster_bytes fs / 32) m xs ys (omega (arith, len, whole)) e in
        let less =
          enough_left fuel (length xs) (length ys) (cluster_bytes fs) (length-append xs ys) enough
            len in
        rw (fits, reads, visits, split, scan-append s (entries_of xs) (entries_of ys), count)
          (after_cluster-onwards (scan s (entries_of xs))
            (λ s'.
              lift (next_cluster fs c) >>= after_link live (λ d. visit_chain live fs fuel d s'))
            (entries_of ys) (λ s'. rw next (visit_chain-scan fuel d ys s' less rest)))

-- The search by name, and by position.
pub scan-live_named :
    (name : List ℕ) (es : List DirectoryEntry)
    → finish (live_named name) (scan (live_named name) tt es) ≡ first_named name (listing es)
unfolding scan first_named
scan-live_named name [] = unfold listing in refl
scan-live_named name (e ∷ es) = elim (Bool-cases (is_end e)) [
  | inl stop ↦ rw (scan, listing_cons e es, visit-end (live_named name) tt e stop, stop) refl
  | inr go ↦ elim (Bool-cases (is_free e || is_lfn e || is_volume_id e)) [
    | inl skip ↦
        rw (scan, listing_cons e es, visit-unused (live_named name) tt e go skip, go, skip)
          (scan-live_named name es)
    | inr used ↦ elim (Bool-cases (matches_name e name)) [
      | inl same ↦
          rw (scan, listing_cons e es, visit-used (live_named name) tt e go used, go, used, same)
            refl
      | inr other ↦
          rw (scan, listing_cons e es, visit-used (live_named name) tt e go used, go, used, other)
            (scan-live_named name es)
    ]
  ]
]

pub scan-live_counted :
    (position n : ℕ) (es : List DirectoryEntry)
    → n ≤ position
    → finish (live_counted position) (scan (live_counted position) n es)
      ≡ get_elem? (listing es) (position - n)
unfolding scan
scan-live_counted position n [] h = unfold listing in refl
scan-live_counted position n (e ∷ es) h = elim (Bool-cases (is_end e)) [
  | inl stop ↦ rw (scan, listing_cons e es, visit-end (live_counted position) n e stop, stop) refl
  | inr go ↦ elim (Bool-cases (is_free e || is_lfn e || is_volume_id e)) [
    | inl skip ↦
        rw (scan, listing_cons e es, visit-unused (live_counted position) n e go skip, go, skip)
          (scan-live_counted position n es h)
    | inr used ↦ elim (Bool-cases (n == position)) [
      | inl here ↦
          let found : position - n ≡ 0 = ground (arith, here) in
          rw
            (
              scan,
              listing_cons e es,
              visit-used (live_counted position) n e go used,
              go,
              used,
              here,
              found,
            )
            refl
      | inr before ↦
          let further : position - n ≡ suc (position - (n + 1)) = ground (arith, before, h) in
          rw
            (
              scan,
              listing_cons e es,
              visit-used (live_counted position) n e go used,
              go,
              used,
              before,
              further,
            )
            (scan-live_counted position (n + 1) es (ground (arith, before, h)))
    ]
  ]
]

-- ===== src/Drivers/Cli/Paging.antt =====
-- The loop of `Execute` on what a device shows page by page.
use nano_southbound.Prelude.{
  ℕ, zero, suc, ◌<◌, ◌≡◌, ◌↔◌, inl, inr, ◌∙◌, true, false, some, [], ◌++◌, append_assoc, arith,
  Bool-cases,
}
use nano_southbound.Go.Text.{Text, codes}
use nano_southbound.Go.Result.{ok, Result-cases}
use nano_southbound.Drivers.Cli.Prompt.{PromptPattern, matches_pager}
use nano_southbound.Drivers.Cli.Session.{Expecter, prompt_or_pager, read_pages}

module _ {D : Type 0} (e : Expecter D) (p : PromptPattern) where
  -- From the first state the device shows a text in pages, with so many pagers that it passes by a
  -- space, and is in the second state then.
  pub data Pages : D → Text → ℕ → D → Type 0 where
    last :
        {d after : D} {chunk : Text}
        → e.expect (prompt_or_pager p) d ≡ (ok chunk, after)
        → matches_pager chunk ≡ false
        → Pages d chunk 0 after
    page :
        {d shown next after : D} {chunk text : Text} {n : ℕ}
        → e.expect (prompt_or_pager p) d ≡ (ok chunk, shown)
        → matches_pager chunk ≡ true
        → e.send (codes " ") shown ≡ (ok tt, next)
        → Pages next text n after
        → Pages d (chunk ++ text) (suc n) after

  Pages-read_pages :
      (fuel : ℕ) (command out : Text) {d after : D} {text : Text} {n : ℕ}
      → Pages d text n after
      → n < fuel
      → read_pages e p fuel command out d ≡ some (ok (out ++ text), after)
  unfolding read_pages
  Pages-read_pages zero command out pages h = absurd (ground arith)
  Pages-read_pages (suc fuel) command out (last shown no_pager) h = ground arith
  Pages-read_pages (suc fuel) command out (page {chunk = chunk} {text = text} shown pager sent rest)
        h =
      ground (
        arith,
        Pages-read_pages fuel command (out ++ chunk) rest (ground arith),
        append_assoc out chunk text,
      )

  -- A loop that has read an output has passed the pages that show it.
  read_pages-Pages :
      (fuel : ℕ) (command out : Text) (d after : D) (output : Text)
      → read_pages e p fuel command out d ≡ some (ok output, after)
      → (text : Text) × (n : ℕ) × Pages d text n after × (output ≡ out ++ text) × (n < fuel)
  unfolding read_pages
  read_pages-Pages zero command out d after output h = cc
  read_pages-Pages (suc fuel) command out d after output h =
      elim (Result-cases (e.expect (prompt_or_pager p) d).0) [
        | inr (m, timeout) ↦ absurd (ground arith)
        | inl (chunk, shown) ↦ elim (Bool-cases (matches_pager chunk)) [
          | inr no_pager ↦ (chunk, 0, last (ground arith) no_pager, ground arith, ground arith)
          | inl pager ↦
              let next = e.send (codes " ") (e.expect (prompt_or_pager p) d).1 in
              elim (Result-cases next.0) [
                | inr (m, stopped) ↦ absurd (ground arith)
                | inl (u, sent) ↦
                    let (text, n, pages, split, bound) =
                      read_pages-Pages fuel command (out ++ chunk) next.1 after output
                        (ground arith) in
                    (
                      chunk ++ text,
                      suc n,
                      page {d = d} {shown = (e.expect (prompt_or_pager p) d).1} {next = next.1}
                          {after = after} {chunk = chunk} {text = text} {n = n} (ground arith) pager
                          (ground arith) pages,
                      split ∙ append_assoc out chunk text,
                      ground arith,
                    )
              ]
        ]
      ]

  -- The loop that waits for the prompt ends with an output, for some number of chunks that it may read,
  -- exactly if the device shows that output in pages before the prompt; and then each number
  -- greater than that of the pagers is enough.
  pub read_pages-ends :
      (command : Text) (d after : D) (output : Text)
      → (((fuel : ℕ) × (read_pages e p fuel command [] d ≡ some (ok output, after)))
          ↔ ((n : ℕ) × Pages d output n after))
        × ((n : ℕ)
            → Pages d output n after
            → (fuel : ℕ) → n < fuel
            → read_pages e p fuel command [] d ≡ some (ok output, after))
  read_pages-ends command d after output = (
    (
      λ (fuel, read).
          let (text, n, pages, split, bound) =
            read_pages-Pages fuel command [] d after output read in
          (n, rw split pages),
      λ (n, pages). (suc n, Pages-read_pages (suc n) command [] pages (ground arith)),
    ),
    λ n pages fuel bound. Pages-read_pages fuel command [] pages bound,
  )

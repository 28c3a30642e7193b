-- ===== src/Hooks/ReadScanner/Clean.antt =====
-- The read scanner against the scan of security.cjs.
use sagasmith.Common.{
  ℕ, ◌≡◌, refl, true, false, ◌&&◌, none, ◌++◌, any, leb, arith, Str, non_empty, In, In-append,
  false-any, any-false, non_empty-append, non_empty-map, inl, inr, not_true,
}
use sagasmith.Common.Regex.{Matches, test}
use sagasmith.Common.Regex.Laws.{test_iff}
use sagasmith.Security.Patterns.{Pattern, tag_character}
use sagasmith.Security.Scan.{hits, scan_for_injection}
use sagasmith.Security.Scan.Clean.{
  IsClean, scan_for_injection-clean_iff, non_empty-matched, hit_not, non_empty-when,
}
use sagasmith.Hooks.PromptGuard.{hook_patterns}
use sagasmith.Hooks.PromptGuard.Clean.{hook_hits}
use sagasmith.Hooks.ReadScanner.{
  summarisation_patterns, all_patterns, Call, content_of, is_hidden, findings_in, reported,
  read_scanner,
}

-- No pattern of the hook's own table, and no invisible operator or isolate (U+2060–2069).
pub record IsUnmarked (text : Str) : Type 0 where
  pub no_summary : (p : Pattern) → In p summarisation_patterns → ¬ Matches p.language text
  pub no_operator : (c : ℕ) → In c text → (leb 0x2060 c && leb c 0x2069) ≡ false

pattern_hits :
    (text : Str) → IsClean text true → IsUnmarked text → any (hits text) all_patterns ≡ false
unfolding all_patterns
pattern_hits text w u = false-any (hits text) (hook_patterns ++ summarisation_patterns) (λ p at.
    elim (In-append p hook_patterns summarisation_patterns at) [
      | inl h ↦ any-false (hits text) hook_patterns (hook_hits text w) p h
      | inr s ↦ hit_not text p (u.no_summary p s)
    ])

no_hidden : (text : Str) → IsClean text true → IsUnmarked text → any is_hidden text ≡ false
no_hidden text w u =
    false-any is_hidden text (λ c at. rw (w.plain.visible c at, u.no_operator c at) refl)

no_tag : (text : Str) → IsClean text true → test tag_character text ≡ false
no_tag text w =
    not_true (test tag_character text) (λ t. w.plain.untagged ((test_iff tag_character text).0 t))

clean_findings :
    (text : Str) → IsClean text true → IsUnmarked text → non_empty (findings_in text) ≡ false
unfolding findings_in
clean_findings text w u =
    rw
      (
        non_empty-append,
        non_empty-append,
        non_empty-map,
        non_empty-matched,
        non_empty-when,
        non_empty-when,
        pattern_hits text w u,
        no_hidden text w u,
        no_tag text w,
      )
      refl

silent_reported :
    (basename : Str → Str) (c : Call)
    → non_empty (findings_in (content_of c.tool_response)) ≡ false
    → non_empty (reported basename c) ≡ false
unfolding reported
silent_reported basename c h = ground arith

silent :
    (basename : Str → Str) (c : Call)
    → non_empty (reported basename c) ≡ false
    → read_scanner basename c ≡ none
unfolding read_scanner
silent basename c h = ground arith

-- Content that the strict scan of security.cjs finds clean, and that has no pattern of the hook's
-- own table and no character of U+2060–2069, makes the read scanner give no warning.
pub read_scanner-scan :
    (basename : Str → Str) (c : Call)
    → (scan_for_injection (content_of c.tool_response) true).clean ≡ true
    → IsUnmarked (content_of c.tool_response)
    → read_scanner basename c ≡ none
read_scanner-scan basename c h u =
    let text = content_of c.tool_response in
    let w = (scan_for_injection-clean_iff text true).0 h in
    silent basename c (silent_reported basename c (clean_findings text w u))

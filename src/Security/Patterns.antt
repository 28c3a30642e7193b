-- ===== src/Security/Patterns.antt =====
-- The tables of security.cjs, which the hooks share in part.
use sagasmith.Common.{
  ℕ, zero, suc, Bool, not, ◌&&◌, ◌||◌, List, [], ◌∷◌, ◌++◌, leb, ◌==◌, Str, str, is_digit,
}
use sagasmith.Common.Regex.{
  Regex, eps, chr, seq, star, char, lit, lit_i, spaces, is_space, same_letter, opt, seqs, alts,
  words_i, anything, holds,
}

-- The source of a pattern, and the whole texts in which `test` finds it.
pub record Pattern : Type 0 where
  pub source : Str
  pub language : Regex

abbrev pattern : Str → Regex → Pattern
pattern s r = record { source = s; language = holds r }

-- The texts that do not start with the word under the flag i.
abbrev not_word : Str → Regex
not_word [] = Regex.none
not_word (c ∷ w) = alts (
    eps
    ∷ seq (chr (λ d. not (same_letter c d))) anything
    ∷ seq (chr (same_letter c)) (not_word w)
    ∷ [])

-- (?!plan|phase|wave), as the texts that may follow.
abbrev not_role : Regex
not_role = alts (
    eps
    ∷ seq (chr (λ d. not (same_letter b'p' d || same_letter b'w' d))) anything
    ∷ seq (chr (same_letter b'w')) (not_word (str "ave"))
    ∷ seq (chr (same_letter b'p')) (
        alts (
          eps
          ∷ seq (chr (λ d. not (same_letter b'l' d || same_letter b'h' d))) anything
          ∷ seq (chr (same_letter b'l')) (not_word (str "an"))
          ∷ seq (chr (same_letter b'h')) (not_word (str "ase"))
          ∷ []))
    ∷ [])

-- Direct instruction override attempts
unfoldable pub override_patterns : List Pattern
override_patterns =
    pattern (str "ignore\\s+(all\\s+)?previous\\s+instructions") (
      seqs (
        lit_i (str "ignore")
        ∷ spaces
        ∷ opt (seqs (lit_i (str "all") ∷ spaces ∷ []))
        ∷ lit_i (str "previous")
        ∷ spaces
        ∷ lit_i (str "instructions")
        ∷ []))
    ∷ pattern (str "ignore\\s+(all\\s+)?above\\s+instructions") (
        seqs (
          lit_i (str "ignore")
          ∷ spaces
          ∷ opt (seqs (lit_i (str "all") ∷ spaces ∷ []))
          ∷ lit_i (str "above")
          ∷ spaces
          ∷ lit_i (str "instructions")
          ∷ []))
    ∷ pattern (str "disregard\\s+(all\\s+)?previous") (
        seqs (
          lit_i (str "disregard")
          ∷ spaces
          ∷ opt (seqs (lit_i (str "all") ∷ spaces ∷ []))
          ∷ lit_i (str "previous")
          ∷ []))
    ∷ pattern (str "forget\\s+(all\\s+)?(your\\s+)?instructions") (
        seqs (
          lit_i (str "forget")
          ∷ spaces
          ∷ opt (seqs (lit_i (str "all") ∷ spaces ∷ []))
          ∷ opt (seqs (lit_i (str "your") ∷ spaces ∷ []))
          ∷ lit_i (str "instructions")
          ∷ []))
    ∷ pattern (str "override\\s+(system|previous)\\s+(prompt|instructions)") (
        seqs (
          lit_i (str "override")
          ∷ spaces
          ∷ words_i (str "system" ∷ str "previous" ∷ [])
          ∷ spaces
          ∷ words_i (str "prompt" ∷ str "instructions" ∷ [])
          ∷ []))
    ∷ []

-- Role/identity manipulation
unfoldable pub role_patterns : List Pattern
role_patterns =
    pattern (str "you\\s+are\\s+now\\s+(?:a|an|the)\\s+") (
      seqs (
        lit_i (str "you")
        ∷ spaces
        ∷ lit_i (str "are")
        ∷ spaces
        ∷ lit_i (str "now")
        ∷ spaces
        ∷ words_i (str "a" ∷ str "an" ∷ str "the" ∷ [])
        ∷ spaces
        ∷ []))
    ∷ record {
      source = str "act\\s+as\\s+(?:a|an|the)\\s+(?!plan|phase|wave)";
      language = seqs (
          anything
          ∷ lit_i (str "act")
          ∷ spaces
          ∷ lit_i (str "as")
          ∷ spaces
          ∷ words_i (str "a" ∷ str "an" ∷ str "the" ∷ [])
          ∷ spaces
          ∷ not_role
          ∷ []);
    }
    ∷ pattern (str "pretend\\s+(?:you(?:'re| are)\\s+|to\\s+be\\s+)") (
        seqs (
          lit_i (str "pretend")
          ∷ spaces
          ∷ alts (
              seqs (lit_i (str "you") ∷ words_i (str "'re" ∷ str " are" ∷ []) ∷ spaces ∷ [])
              ∷ seqs (lit_i (str "to") ∷ spaces ∷ lit_i (str "be") ∷ spaces ∷ [])
              ∷ [])
          ∷ []))
    ∷ pattern (str "from\\s+now\\s+on,?\\s+you\\s+(?:are|will|should|must)") (
        seqs (
          lit_i (str "from")
          ∷ spaces
          ∷ lit_i (str "now")
          ∷ spaces
          ∷ lit_i (str "on")
          ∷ opt (lit_i (str ","))
          ∷ spaces
          ∷ lit_i (str "you")
          ∷ spaces
          ∷ words_i (str "are" ∷ str "will" ∷ str "should" ∷ str "must" ∷ [])
          ∷ []))
    ∷ []

abbrev pub extraction_pattern : Pattern
extraction_pattern =
    pattern
      (str
        "(?:print|output|reveal|show|display|repeat)\\s+(?:your\\s+)?(?:system\\s+)?(?:prompt|instructions)")
      (seqs (
        words_i (
          str "print"
          ∷ str "output"
          ∷ str "reveal"
          ∷ str "show"
          ∷ str "display"
          ∷ str "repeat"
          ∷ [])
        ∷ spaces
        ∷ opt (seqs (lit_i (str "your") ∷ spaces ∷ []))
        ∷ opt (seqs (lit_i (str "system") ∷ spaces ∷ []))
        ∷ words_i (str "prompt" ∷ str "instructions" ∷ [])
        ∷ []))

abbrev pub question_pattern : Pattern
question_pattern =
    pattern (str "what\\s+(?:are|is)\\s+your\\s+(?:system\\s+)?(?:prompt|instructions)") (
      seqs (
        lit_i (str "what")
        ∷ spaces
        ∷ words_i (str "are" ∷ str "is" ∷ [])
        ∷ spaces
        ∷ lit_i (str "your")
        ∷ spaces
        ∷ opt (seqs (lit_i (str "system") ∷ spaces ∷ []))
        ∷ words_i (str "prompt" ∷ str "instructions" ∷ [])
        ∷ []))

-- Hidden instruction markers
unfoldable pub marker_patterns : List Pattern
marker_patterns =
    pattern (str "<\\/?(?:system|assistant|human)>") (
      seqs (
        lit_i (str "<")
        ∷ opt (lit_i (str "/"))
        ∷ words_i (str "system" ∷ str "assistant" ∷ str "human" ∷ [])
        ∷ lit_i (str ">")
        ∷ []))
    ∷ pattern (str "\\[SYSTEM\\]") (lit_i (str "[SYSTEM]"))
    ∷ pattern (str "\\[INST\\]") (lit_i (str "[INST]"))
    ∷ pattern (str "<<\\s*SYS\\s*>>") (
        seqs (
          lit_i (str "<<")
          ∷ star (chr is_space)
          ∷ lit_i (str "SYS")
          ∷ star (chr is_space)
          ∷ lit_i (str ">>")
          ∷ []))
    ∷ []

-- Exfiltration attempts
unfoldable pub exfiltration_patterns : List Pattern
exfiltration_patterns =
    pattern (str "(?:send|post|fetch|curl|wget)\\s+(?:to|from)\\s+https?:\\/\\/") (
      seqs (
        words_i (str "send" ∷ str "post" ∷ str "fetch" ∷ str "curl" ∷ str "wget" ∷ [])
        ∷ spaces
        ∷ words_i (str "to" ∷ str "from" ∷ [])
        ∷ spaces
        ∷ lit_i (str "http")
        ∷ opt (lit_i (str "s"))
        ∷ lit_i (str "://")
        ∷ []))
    ∷ pattern (str "(?:base64|btoa|encode)\\s+(?:and\\s+)?(?:send|exfiltrate|output)") (
        seqs (
          words_i (str "base64" ∷ str "btoa" ∷ str "encode" ∷ [])
          ∷ spaces
          ∷ opt (seqs (lit_i (str "and") ∷ spaces ∷ []))
          ∷ words_i (str "send" ∷ str "exfiltrate" ∷ str "output" ∷ [])
          ∷ []))
    ∷ []

abbrev pub tool_pattern : Pattern
tool_pattern =
    pattern
      (str
        "(?:run|execute|call|invoke)\\s+(?:the\\s+)?(?:bash|shell|exec|spawn)\\s+(?:tool|command)")
      (seqs (
        words_i (str "run" ∷ str "execute" ∷ str "call" ∷ str "invoke" ∷ [])
        ∷ spaces
        ∷ opt (seqs (lit_i (str "the") ∷ spaces ∷ []))
        ∷ words_i (str "bash" ∷ str "shell" ∷ str "exec" ∷ str "spawn" ∷ [])
        ∷ spaces
        ∷ words_i (str "tool" ∷ str "command" ∷ [])
        ∷ []))

unfoldable pub injection_patterns : List Pattern
injection_patterns =
    override_patterns
    ++ (role_patterns
        ++ (extraction_pattern
            ∷ question_pattern
            ∷ (marker_patterns ++ (exfiltration_patterns ++ tool_pattern ∷ []))))

abbrev pub is_word : ℕ → Bool
is_word c = is_digit c || (leb b'a' c && leb c b'z') || (leb b'A' c && leb c b'Z') || (c == b'_')

-- `\b` before a word character: the text starts there, or what stands before is no word character;
-- behind one likewise.
abbrev boundary_before : Regex
boundary_before = opt (seq anything (chr (λ c. not (is_word c))))

abbrev boundary_after : Regex
boundary_after = opt (seq (chr (λ c. not (is_word c))) anything)

-- r{n,}
abbrev at_least : ℕ → Regex → Regex
at_least zero r = star r
at_least (suc n) r = seq r (at_least n r)

abbrev is_hex : ℕ → Bool
is_hex c = is_digit c || (leb b'a' c && leb c b'f') || (leb b'A' c && leb c b'F')

-- An entry with its message in place of the source.
unfoldable pub obfuscation_pattern_entries : List Pattern
obfuscation_pattern_entries =
    record {
      source = str "Character-spacing obfuscation pattern detected (e.g. \"i g n o r e\")";
      language = seqs (
          boundary_before
          ∷ at_least 4 (seq (chr is_word) (chr is_space))
          ∷ chr is_word
          ∷ boundary_after
          ∷ []);
    }
    ∷ record {
      source = str "Delimiter injection pattern: <system>/<assistant>/<user> tag detected";
      language = holds (
          seqs (
            char b'<'
            ∷ opt (char b'/')
            ∷ words_i (str "system" ∷ str "human" ∷ str "assistant" ∷ str "user" ∷ [])
            ∷ star (chr is_space)
            ∷ char b'>'
            ∷ []));
    }
    ∷ record {
      source = str "Long hex sequence detected — possible encoded payload";
      language = holds (seq (lit (str "0x")) (at_least 16 (chr is_hex)));
    }
    ∷ []

-- [\u200B-\u200F\u2028-\u202F\uFEFF\u00AD]
abbrev pub is_invisible : ℕ → Bool
is_invisible c =
    (leb 0x200b c && leb c 0x200f) || (leb 0x2028 c && leb c 0x202f) || (c == 0xfeff) || (c == 0xad)

-- A code point of U+E0000–U+E007F in its two code units.
abbrev pub tag_character : Regex
tag_character = seq (char 0xdb40) (chr (λ c. leb 0xdc00 c && leb c 0xdc7f))

-- ===== src/Tests/Documents.antt =====
-- Documents: headings, sections, edits and files at concrete inputs.
use spec_cli.Common.{◌≡◌, refl, none, some, [], ◌∷◌}
use spec_cli.Sections.{extract_sections}
use spec_cli.Sections.Heading.{heading_of}

suffix_test :
    heading_of "  ## The goal  {#goal} "
    ≡ some (record { level = 2; label = "goal"; title = "The goal" })
unfolding heading_of
suffix_test = refl

link_test :
    heading_of "# [The (goal)](#goal)"
    ≡ some (record { level = 1; label = "goal"; title = "The (goal)" })
unfolding heading_of
link_test = refl

too_deep_test : heading_of "    ## The goal {#goal}" ≡ none
unfolding heading_of
too_deep_test = refl

plain_test : heading_of "## The goal" ≡ none
unfolding heading_of
plain_test = refl

extract_test :
    extract_sections "intro\r\n# A {#a}\n\nx\n# B {#b}\n# A {#a}\ny"
    ≡ (("b", record { title = "B"; body = "" }) ∷ [], "a" ∷ [])
unfolding extract_sections heading_of
extract_test = refl

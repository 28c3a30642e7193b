-- ===== src/Frontmatter.antt =====
-- .kilo/get-shit-done/bin/lib/frontmatter.cjs: the block of settings at the head of a markdown file.
-- The data here; the parser, the printer and the commands in the files below.
pub mod Lines
pub mod Parser
pub mod Printer
pub mod Characters
pub mod Shape
pub mod Reading
pub mod Blocks
pub mod RoundTrip
pub mod Commands
mod Tests
use sagasmith.Common.{Bool, true, false, Option, none, some, List, Str, str_eq, if◌then◌else◌}

-- An element of an array: a string, or another value by its text in a template.
pub data Item : Type 0 where
  word other : Str → Item

mutual
  -- A value: null or undefined, a string, a number or Boolean by its text, an array, an object.
  pub data Value : Type 0 where
    absent : Value
    text scalar : Str → Value
    list : List Item → Value
    group : Entries → Value

  -- An object: its fields in order.
  pub data Entries : Type 0 where
    end : Entries
    entry : Str → Value → Entries → Entries

-- `o[k] = v`
unfoldable pub put : Entries → Str → Value → Entries
put end k v = entry k v end
put (entry j w es) k v = if str_eq j k then entry j v es else entry j w (put es k v)

-- `o[k]`
unfoldable pub get : Entries → Str → Option Value
get end k = none
get (entry j w es) k = if str_eq j k then some w else get es k

-- ===== src/Transport.antt =====
-- transport.go: the error that every transport sends on its error channel. The error inside is of
-- an abstract type, with the text that its own `Error` method returns.
pub mod Text
mod Examples
use vice.Base.{ℕ, Bytes, codes, ◌++◌, length, ltb, if◌then◌else◌}

pub record Err (E : Type 0) : Type 0 where
  pub message : Bytes
  pub name : Bytes
  pub err : E

-- `Error`: the message stands in the text only if it is not empty.
unfoldable pub error_text : {E : Type 0} → (E → Bytes) → Err E → Bytes
error_text text e =
    if ltb 0 (length e.message)
    then text e.err ++ (codes ": |" ++ (e.name ++ (codes "| <- `" ++ (e.message ++ codes "`"))))
    else text e.err ++ (codes ": |" ++ (e.name ++ codes "|"))

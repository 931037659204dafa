-- ===== src/Transport/Examples.antt =====
-- Texts of errors, and the theorem about them at two equal errors.
use vice.Base.{◌≡◌, refl, codes, Bytes}
use vice.Transport.{Err, error_text}

abbrev timeout : Err Bytes
timeout = record { message = codes "hi"; name = codes "names"; err = codes "timeout" }

error_text_message : error_text (λ t. t) timeout ≡ codes "timeout: |names| <- `hi`"
unfolding error_text
error_text_message = refl

error_text_name :
    error_text (λ t. t) (record timeout { message = codes "" }) ≡ codes "timeout: |names|"
unfolding error_text
error_text_name = refl

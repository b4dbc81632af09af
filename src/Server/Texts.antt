-- ===== src/Server/Texts.antt =====
-- src/main.cpp and include/ice/async.h: what is printed on the error stream.
use ice_test.Base.{ℕ, ◌==◌, List, [], ◌∷◌, ◌++◌, if◌then◌else◌}
use ice_test.Message.Category.{decimal_digits, to_string}
use ice_test.Message.Text.{codes}
use ice_test.Net.Endpoint.{Family, Endpoint, print}
use ice_test.Base.{Option}
use ice_test.Server.Startup.{Exception, system, standard, unhandled}

-- The end of `respond`: the text about a response that has not been sent whole. `operator<<` of a socket
-- prints its endpoint, and a size has 64 bits.
unfoldable pub short_send :
    (Family → List ℕ → ℕ → Option (List ℕ)) → Endpoint → (sent size : ℕ) → List ℕ
unfolding print decimal_digits
short_send inet_ntop client sent size =
    if sent == size
    then []
    else codes "could not send response to "
      ++ (print inet_ntop client
          ++ (codes " (" ++ decimal_digits 20 sent (b'/' ∷ decimal_digits 20 size (codes ")\n"))))

-- What `exception_handler` prints, where `what` is the text of the exception.
unfoldable pub handler_text : Exception → (what : List ℕ) → List ℕ
unfolding to_string
handler_text (system error) what =
    codes "error: " ++ (what ++ (codes " (" ++ (to_string error.code ++ codes ")\n")))
handler_text standard what = codes "error: " ++ (what ++ codes "\n")
handler_text unhandled what = codes "error: unhandled exception\n"

-- What `main` prints of an exception.
unfoldable pub main_text : (what : List ℕ) → List ℕ
main_text what = what ++ codes "\n"

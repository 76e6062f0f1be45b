-- ===== src/Callbacks/Tests.antt =====
-- Buttons and taps (services/telegram.py) on concrete ids.
use financial_dashboard.Prelude.{◌≡◌, ◌≤◌, refl, none, some, arith}
use financial_dashboard.Prelude.Int.{negsuc}
use financial_dashboard.Callbacks.{codes, Button, settle, to_assistant}
use financial_dashboard.Callbacks.Numbers.{int_of}
use financial_dashboard.Callbacks.Render.{callback_data}
use financial_dashboard.Callbacks.Read.{handle_callback, encoded_length}
use financial_dashboard.Callbacks.RoundTrip.{named, tap_reads_button}
use financial_dashboard.Callbacks.Fits.{button_fits}

signed_number : int_of (codes " -1_0 ") ≡ some (negsuc 9)
unfolding int_of
signed_number = refl

double_underscore : int_of (codes "1__0") ≡ none
unfolding int_of
double_underscore = refl

settlement_data : callback_data (settle 2 40 (codes "ab12") 7) ≡ codes "st:m:2:40:ab12:7"
unfolding callback_data
settlement_data = refl

missing_part : handle_callback (codes "st:m:2:40:7") ≡ none
unfolding handle_callback
missing_part = refl

zero_id : handle_callback (codes "smsdup:v1:n:0") ≡ none
unfolding handle_callback
zero_id = refl

assistant_button : handle_callback (codes "pc:v1:4:y") ≡ some (to_assistant (codes "pc:v1:4:y"))
unfolding handle_callback
assistant_button = refl

abbrev button : Button
button = settle 2 40 (codes "ab12") 7

tap_reads_button_example : handle_callback (callback_data button) ≡ some (named button)
unfolding callback_data encoded_length
tap_reads_button_example = tap_reads_button button (refl, (refl, (refl, (refl, tt)))) (omega arith)

button_fits_example : encoded_length (callback_data button) ≤ 64
unfolding encoded_length
button_fits_example = button_fits button (omega arith, omega arith, omega arith, omega arith)

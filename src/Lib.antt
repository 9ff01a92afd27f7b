-- ===== src/Lib.antt =====
-- The verification library of eOVPN Pro, a client that connects to OpenVPN servers through
-- NetworkManager or OpenVPN 3 and that picks a server by itself when asked to.
--
-- The parts, and how they interact. A speed test measures the servers of the list; the queue of the
-- auto-connect (AutoConnect) sorts them by it. The cascade (Cascade) walks down the queue: it asks the
-- backend for a connection, arms timers in the main loop, and hears from the backend through typed
-- events (Events), until a server answers, the queue is exhausted or the user cancels. The backend
-- (Backend) queues the native calls for a thread of its own and refuses profiles that the audit
-- (Config) reports. Profiles come from an archive or a folder (Download) and are read by the parser
-- (Config). The window (MainWindow) has the events that the cascade leaves, reconnects by itself, and
-- starts the test that a run waits for. The settings (Settings) keep the user's choices and the
-- password of the session, and can be reset and restored; the settings window (SettingsWindow) writes
-- the password to the keyring.
--
--   AutoConnect/Queue, Timeout, Badge   eovpn/auto_connect.py: build_cascade_queue,
--                                       collect_visible_filenames, compute_attempt_timeout,
--                                       format_proto_badge, proto_badge_css
--   Events                              eovpn/events.py: normalize_connection_event
--   Cascade/State                       the fields of CascadeController in
--                                       eovpn/cascade_controller.py and of its host, eovpn/main_window.py
--   Cascade/Attempt                     ConnectionAttempt of eovpn/speed_state.py, attempt_summary
--   Cascade/Progress                    eovpn/cascade.py
--   Cascade/Timers, Loop                the timers of the controller, eovpn/timers.py, the main loop
--   Cascade/Finish, Walk, Controller    finish; advance, the timer callbacks and _try_current_server;
--                                       start, cancel, toggle and on_connection_event
--   Config/Parser                       eovpn/ovpn_parser.py
--   Config/Audit, Filter, Sizes         eovpn/utils.py: audit_ovpn_content, ovpn_is_auth_required,
--                                       matches_server_filter, format_throughput, format_data_size
--   Download/Hosts, Fetch, Extract,     eovpn/utils.py: download_remote_to_destination and what it
--   Folder, Source                      calls
--   Backend/Selection                   eovpn/connection_manager.py: create_connection_manager
--   Backend/Worker, Profile             eovpn/connection_manager.py: NetworkManager
--   Backend/OpenVpn3                    OpenVPN3 of eovpn/connection_manager.py, and
--                                       eovpn/backend/openvpn3/dbus.py
--   Backend/Signals                     eovpn/backend/networkmanager/dbus.py
--   Download/Import                     eovpn/eovpn_base.py: the worker of validate_and_load
--   MainWindow                          eovpn/main_window.py: on_connection_event,
--                                       _handle_connected, _handle_disconnected, trigger_reconnect,
--                                       MainWindowSignals.connect
--   MainWindow/SpeedTest                eovpn/main_window.py: trigger_speed_test,
--                                       on_speed_test_complete, on_sort_toggled, on_fastest_clicked
--   MainWindow/Order                    eovpn/main_window.py: the order, the filters and the rows
--   Settings, Settings/Session          eovpn/eovpn_base.py: get_setting, set_setting, the
--                                       favorites, the session password
--   Settings/Backup                     eovpn/reset_backup.py; _apply_reset and _apply_restore of
--                                       eovpn/settings_window.py; show_alert of eovpn/ui_compat.py
--   SettingsWindow/Password             eovpn/settings_window.py: process_password and its timer
--   SettingsWindow/BackendChoice        eovpn/settings_window.py: on_backend_selected
--   Otp                                 eovpn/dialogs/otp.py
--   Rows                                eovpn/eovpn_base.py: _resolve_editable_path, load_only
--   Lookup                              eovpn/ip_lookup/lookup.py
--   Application                         eovpn/application.py: do_command_line
--   Speed                               eovpn/speed_test.py, eovpn/speed_state.py
--   Monitor                             eovpn/network_monitor.py
--   Scenarios                           the theorems at concrete inputs, and runs of the code
--   Base                                texts, lists, numbers and dictionaries that the parts share
--
-- State and operations. A method is a function from the state, a record, to the new state and its
-- result; the names are those of the source, without the leading underscore. What the controller
-- asks of the backend and the window is appended to a list of effects; what it is told comes in as a
-- record of answers (Env, Manager), which stays the same during one callback, and so does the time.
-- The pending sources of the main loop are a list; any of them may fire at any time. The two threads
-- of the NetworkManager backend take turns at steps that the lock makes one. The file system, urllib,
-- zipfile, ipaddress, the keyring, the schema of the settings, the D-Bus services and the native
-- libraries are parameters.
--
-- Units and bounds. Times are microseconds, round-trip times tenths of a millisecond, the progress
-- bar hundredths. Texts are lists of code points, and the functions on them are those of ASCII.
-- Numbers are not bounded, as in Python. Two loops use fuel: the printing of a number, which has at
-- most as many digits as its successor counts, and the search for a free name of a snapshot, which
-- has one round more than there are names. Every other loop is a recursion on its list.
--
-- Not modelled: widgets, labels, style classes and translations; logging; the JSON text of a snapshot
-- and of an answer; what the handlers of the widgets write to the settings when a reset clears them;
-- the focus between the boxes of the one-time code, and digits other than the ASCII ones; the
-- credentials and the text of the temporary file of a NetworkManager connection; the C code.
pub mod Base
pub mod AutoConnect
pub mod Backend
pub mod Config
pub mod Download
pub mod Speed
pub mod Monitor
pub mod Lookup
pub mod Application
pub mod Rows
pub mod Otp
pub mod Settings
pub mod MainWindow
pub mod SettingsWindow
pub mod Events
pub mod Cascade
mod Scenarios

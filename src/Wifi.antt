-- ===== src/Wifi.antt =====
-- main/wifi/wifi_task.c: the access points that are found, and the connection to one.
pub mod Scan
pub mod Link
